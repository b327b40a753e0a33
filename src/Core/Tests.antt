-- ===== src/Core/Tests.antt =====
-- Small inputs for the limits and the cache layouts of crates/core.
use ocelotl.Common.{
  ℕ, ◌+◌, ◌*◌, ◌≤◌, ◌<◌, ◌≡◌, ◌↔◌, refl, ◌⊎◌, none, List, [], ◌∷◌, arith, length, All,
}
use ocelotl.Core.Errors.{ok}
use ocelotl.Core.Words.{usize_range, try_product}
use ocelotl.Core.Limits
use ocelotl.Core.Limits.{RequestLimits}
use ocelotl.Core.Limits.Accepts.{
  IsConsistent, validate_iff, validate_generation_iff, validate_audio_samples_iff,
}
use ocelotl.Core.ArtifactLimits
use ocelotl.Core.ArtifactLimits.Accepts.{
  IsCoherent, validate_gguf_counts_iff, validate_file_bytes_iff,
}
use ocelotl.Core.KvLayout.{
  KvCacheLayout, DType, Device, checked_product, values_per_position, values_per_all_key_tensors,
  layer_position_offset,
}
use ocelotl.Core.KvLayout.Offsets.{
  width, window, layer_position_offset_in_bounds, layer_position_offset_disjoint,
}
use ocelotl.Core.PagedLayout.{PagedKvCacheLayout, required_pages_for_tokens, validate_page_table}
use ocelotl.Core.PagedLayout.Pages.{
  Distinct, required_pages_least, required_pages_given, validate_page_table_iff,
}

abbrev limits : RequestLimits
limits = Limits.default_limits

validate_iff_example : (Limits.validate limits ≡ ok tt) ↔ IsConsistent limits
validate_iff_example = validate_iff limits

validate_generation_iff_example :
    (Limits.validate_generation limits 5 7 ≡ ok 12)
    ↔ (IsConsistent limits × (12 ≡ 5 + 7) × (5 ≤ 131_072) × (7 ≤ 4_096) × (12 ≤ 131_072))
validate_generation_iff_example = validate_generation_iff limits 5 7 12 (omega arith)

validate_audio_samples_iff_example :
    (Limits.validate_audio_samples limits 16_000 ≡ ok tt)
    ↔ (IsConsistent limits × (16_000 ≤ limits.max_audio_samples))
validate_audio_samples_iff_example = validate_audio_samples_iff limits 16_000

abbrev artifacts : ArtifactLimits.ArtifactLimits
artifacts = ArtifactLimits.default_limits

validate_gguf_counts_iff_example :
    (ArtifactLimits.validate_gguf_counts artifacts none 339 26 ≡ ok tt)
    ↔ (IsCoherent artifacts × (339 ≤ 131_072) × (26 ≤ 65_536))
validate_gguf_counts_iff_example = validate_gguf_counts_iff artifacts none 339 26

validate_file_bytes_iff_example :
    (ArtifactLimits.validate_file_bytes artifacts none 4_096 ≡ ok tt)
    ↔ (IsCoherent artifacts × (4_096 ≤ artifacts.max_file_bytes))
validate_file_bytes_iff_example = validate_file_bytes_iff artifacts none 4_096

abbrev layout : KvCacheLayout
layout = record {
  num_layers = 2;
  num_key_value_heads = 2;
  capacity_tokens = 5;
  head_dim = 3;
  dtype = DType.f32;
  device = Device.cpu;
}

layout_size : values_per_all_key_tensors layout ≡ ok 60
unfolding values_per_all_key_tensors checked_product try_product ocelotl.Core.Words.checked_mul
layout_size = refl

layout_width : values_per_position layout ≡ ok 6
unfolding values_per_position checked_product try_product ocelotl.Core.Words.checked_mul
layout_width = refl

layer_position_offset_in_bounds_example :
    (values_per_position layout ≡ ok (width layout))
    × (layer_position_offset layout 1 4 ≡ ok (window layout 1 4))
    × (window layout 1 4 + width layout ≤ 60)
layer_position_offset_in_bounds_example =
    layer_position_offset_in_bounds layout 60 1 4 layout_size (omega arith) (omega arith)

last_offset : layer_position_offset layout 0 4 ≡ ok 24
last_offset =
    (layer_position_offset_in_bounds layout 60 0 4 layout_size (omega arith) (omega arith)).1

first_offset : layer_position_offset layout 1 0 ≡ ok 30
first_offset =
    (layer_position_offset_in_bounds layout 60 1 0 layout_size (omega arith) (omega arith)).1

layer_position_offset_disjoint_example : (24 + 6 ≤ 30) ⊎ (30 + 6 ≤ 24)
layer_position_offset_disjoint_example =
    layer_position_offset_disjoint layout 60 6 0 4 24 1 0 30 layout_size layout_width last_offset
      first_offset (λ e f. omega arith)

abbrev paged : PagedKvCacheLayout
paged = record { base = layout; page_size_tokens = 2; physical_pages = 4 }

three_pages : required_pages_for_tokens paged 5 ≡ ok 3
unfolding required_pages_for_tokens ocelotl.Core.Words.checked_add ocelotl.Core.Words.checked_div
three_pages = refl

required_pages_least_example : (5 ≤ 3 * 2) × (3 * 2 < 5 + 2)
required_pages_least_example = required_pages_least paged 5 3 (omega arith) three_pages

required_pages_given_example : (r : ℕ) × (required_pages_for_tokens paged 5 ≡ ok r)
required_pages_given_example = required_pages_given paged 5 (omega arith) (omega arith)

abbrev table : List ℕ
table = 3 ∷ 0 ∷ 2 ∷ []

validate_page_table_iff_example :
    (validate_page_table paged table ≡ ok tt)
    ↔ ((3 ≤ length table) × All (λ p. p < 4) table × Distinct table)
validate_page_table_iff_example = validate_page_table_iff paged table 3 three_pages
