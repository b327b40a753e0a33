-- ===== src/Loader/Tests.antt =====
-- A small GGUF file, and the loader on it.
use ocelotl.Common.{
  ℕ, zero, suc, ◌/◌, ◌%◌, ◌++◌, ◌≤◌, ◌<◌, ◌-◌, ◌≡◌, refl, Bool, true, false, none, some, List, [],
  ◌∷◌, String, arith, length, drop,
}
use ocelotl.Core.Errors.{ok, err, OcelotlError}
use ocelotl.Core.Words.{usize_range}
use ocelotl.Core.ArtifactLimits.{default_limits}
use ocelotl.Core.ArtifactLimits
use ocelotl.Core.Words
use ocelotl.Loader.Gguf.Types
use ocelotl.Loader.Gguf.Types.{
  codes, GgufMetadataType, GgufMetadataValue, GgmlTensorType, GgufManifest,
}
use ocelotl.Loader.Gguf.Reader
use ocelotl.Loader.Gguf.Reader.{GgufReader}
use ocelotl.Loader.Gguf.Reader.Moves.{IsPlaced}
use ocelotl.Loader.Gguf.Values
use ocelotl.Loader.Gguf.Values.{read_metadata_value, skip_metadata_value}
use ocelotl.Loader.Gguf.Values.Skips.{read-skip_metadata_value}
use ocelotl.Loader.Gguf.Tokenizer
use ocelotl.Loader.Gguf.Tokenizer.{no_metadata, read_tokenizer_entries}
use ocelotl.Loader.Gguf.Tokenizer.Lockstep.{metadata_lockstep}
use ocelotl.Loader.Gguf.Layout
use ocelotl.Loader.Gguf.Layout.{align_offset}
use ocelotl.Loader.Gguf.Layout.Aligned.{align_offset_least}
use ocelotl.Loader.Gguf.Inspect
use ocelotl.Loader.Gguf.Inspect.{validate_declared_counts_fit_remaining}
use ocelotl.Loader.Gguf.Manifest
use ocelotl.Loader.Gguf.Manifest.{inspect_gguf_with_limits, read_body, opened_reader}
use ocelotl.Loader.Gguf.Manifest.Counts.{declared_counts_lossless}
use ocelotl.Loader.Gguf.Manifest.Accepted.{inspect_accepts-IsManifest, IsManifest}

abbrev any_text : List ℕ → Bool
any_text bytes = true

abbrev any_room : String → ℕ → Bool
any_room field count = true

-- `to_le_bytes`.
abbrev le : ℕ → ℕ → List ℕ
le zero n = []
le (suc width) n = n % 256 ∷ le width (n / 256)

abbrev text : String → List ℕ
text s = le 8 (length (codes s)) ++ codes s

-- The alignment, 8, and a tensor of 2 by 3.
abbrev entry_bytes : List ℕ
entry_bytes = text "general.alignment" ++ le 4 4 ++ le 4 8

abbrev tensor_bytes : List ℕ
tensor_bytes = text "w" ++ le 4 2 ++ le 8 2 ++ le 8 3 ++ le 4 0 ++ le 8 0

abbrev header_bytes : List ℕ
header_bytes = codes "GGUF" ++ le 4 3 ++ le 8 1 ++ le 8 1

abbrev zeros : ℕ → List ℕ
zeros zero = []
zeros (suc n) = 0 ∷ zeros n

abbrev file_bytes : List ℕ
file_bytes = header_bytes ++ entry_bytes ++ tensor_bytes ++ zeros 30

abbrev sample_manifest : GgufManifest
sample_manifest = record {
  version = 3;
  metadata = (record { key = codes "general.alignment"; value = GgufMetadataValue.u32 8 }) ∷ [];
  tensors =
      (record {
        name = codes "w";
        shape = 2 ∷ 3 ∷ [];
        tensor_type = GgmlTensorType.f32;
        offset = 0;
        file_offset = 104;
        byte_len = some 24;
      })
      ∷ [];
  alignment = 8;
  data_start = 104;
  file_len = 128;
}

sample_inspected :
    inspect_gguf_with_limits any_text any_room "model.gguf" (ok file_bytes) default_limits
    ≡ ok sample_manifest
unfolding inspect_gguf_with_limits ArtifactLimits.validate_file_bytes Manifest.read_manifest
    Inspect.read_magic Reader.read_exact_header_part Words.checked_add Inspect.read_version
    Reader.read_le Inspect.read_counts ArtifactLimits.validate ArtifactLimits.validate_gguf_counts
    validate_declared_counts_fit_remaining Words.checked_mul Reader.remaining_bounded_header_bytes
    read_body Inspect.read_metadata Values.try_reserve_exact Inspect.read_entry
    Inspect.describe_tensor Inspect.dim_product Inspect.read_dims Inspect.read_shape
    Inspect.read_tensor Inspect.read_tensors align_offset Layout.alignment_from_metadata
    Layout.alignment_value Layout.check_alignment Layout.check_end Layout.metadata_value
    Layout.place_tensor Layout.place_tensors Manifest.read_data_layout Manifest.read_data_start
    Types.byte_len_for_shape Types.tensor_type_from_raw Types.type_from_raw read_metadata_value
    Values.read_string Values.read_text
sample_inspected = refl

-- Behind the counts.
abbrev placed_reader : ℕ → GgufReader
placed_reader n = record {
  file = drop n file_bytes;
  path = some "model.gguf";
  file_len = 128;
  position = n;
  limits = default_limits;
}

placed : (n : ℕ) → n ≤ 128 → length (drop n file_bytes) ≡ 128 - n → IsPlaced (placed_reader n)
placed n h e = record { whole = omega arith; before_limit = omega arith; in_range = omega arith }

inspect_accepts-IsManifest_example :
    (bytes : List ℕ) × (ok file_bytes ≡ ok bytes)
    × (length bytes ≤ default_limits.max_file_bytes)
    × IsManifest any_text (some "model.gguf") default_limits (length bytes) sample_manifest
inspect_accepts-IsManifest_example =
    inspect_accepts-IsManifest any_text any_room "model.gguf" (ok file_bytes) default_limits
      sample_manifest sample_inspected

body_read :
    read_body any_text any_room 3 1 1 (placed_reader 24) ≡ ok (sample_manifest, placed_reader 98)
unfolding Inspect.read_magic Reader.read_exact_header_part Words.checked_add Inspect.read_version
    Reader.read_le Inspect.read_counts ArtifactLimits.validate ArtifactLimits.validate_gguf_counts
    validate_declared_counts_fit_remaining Words.checked_mul Reader.remaining_bounded_header_bytes
    read_body Inspect.read_metadata Values.try_reserve_exact Inspect.read_entry
    Inspect.describe_tensor Inspect.dim_product Inspect.read_dims Inspect.read_shape
    Inspect.read_tensor Inspect.read_tensors align_offset Layout.alignment_from_metadata
    Layout.alignment_value Layout.check_alignment Layout.check_end Layout.metadata_value
    Layout.place_tensor Layout.place_tensors Manifest.read_data_layout Manifest.read_data_start
    Types.byte_len_for_shape Types.tensor_type_from_raw Types.type_from_raw read_metadata_value
    Values.read_string Values.read_text
body_read = refl

declared_counts_lossless_example :
    validate_declared_counts_fit_remaining (placed_reader 24) 1 1 ≡ ok tt
declared_counts_lossless_example =
    declared_counts_lossless any_text any_room 3 1 1 (placed_reader 24) (placed_reader 98)
      sample_manifest (placed 24 (omega arith) refl) body_read

-- An array of two Booleans.
abbrev array_reader : ℕ → GgufReader
array_reader n = record {
  file = drop n (le 4 7 ++ le 8 2 ++ (1 ∷ 0 ∷ []));
  path = none;
  file_len = 14;
  position = n;
  limits = default_limits;
}

array_read :
    read_metadata_value any_text any_room 4 GgufMetadataType.array (array_reader 0)
    ≡ ok (GgufMetadataValue.bool_array (true ∷ false ∷ []), array_reader 14)
unfolding read_metadata_value Reader.read_le Reader.read_exact_header_part Words.checked_add
    Values.read_array_header Types.type_from_raw Values.read_array Values.try_reserve_exact
    Reader.read_bool
array_read = refl

read-skip_metadata_value_example :
    skip_metadata_value 4 GgufMetadataType.array (array_reader 0) ≡ ok (tt, array_reader 14)
read-skip_metadata_value_example =
    read-skip_metadata_value any_text any_room 4 GgufMetadataType.array (array_reader 0)
      (array_reader 14) (GgufMetadataValue.bool_array (true ∷ false ∷ []))
      (record { whole = refl; before_limit = omega arith; in_range = omega arith }) array_read

align_offset_least_example :
    (d : ℕ) × (98 ≤ d)
    × (d % 8 ≡ 0)
    × ((m : ℕ) → 98 ≤ m → m % 8 ≡ 0 → d ≤ m)
    × (d < usize_range → align_offset none 98 8 ≡ ok d)
    × (usize_range ≤ d → (e : OcelotlError) × (align_offset none 98 8 ≡ err e))
align_offset_least_example = align_offset_least none 98 8 (omega arith) (omega arith)

metadata_read :
    Inspect.read_metadata any_text any_room 1 (placed_reader 24)
    ≡ ok (sample_manifest.metadata, placed_reader 57)
unfolding Inspect.read_metadata Inspect.read_entry Values.try_reserve_exact Values.read_string
    Values.read_text Reader.read_le Reader.read_exact_header_part Words.checked_add
    Types.type_from_raw read_metadata_value
metadata_read = refl

tokenizer_read :
    read_tokenizer_entries any_text any_room 1 no_metadata (placed_reader 24)
    ≡ ok (no_metadata, placed_reader 57)
unfolding read_tokenizer_entries Tokenizer.read_tokenizer_entry Tokenizer.key_arm Tokenizer.read_arm
    Values.try_reserve_exact Values.read_string Values.read_text skip_metadata_value
    Reader.skip_bytes Reader.read_le Reader.read_exact_header_part Words.checked_add
    Types.type_from_raw
tokenizer_read = refl

metadata_lockstep_example : placed_reader 57 ≡ placed_reader 57
metadata_lockstep_example =
    metadata_lockstep any_text any_room 1 no_metadata no_metadata sample_manifest.metadata
      (placed_reader 24) (placed_reader 57) (placed_reader 57) (placed 24 (omega arith) refl)
      metadata_read tokenizer_read
