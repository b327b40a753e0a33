-- ===== src/KvCache/Tests.antt =====
-- Small caches for crates/runtime/src/kv_cache.rs.
use ocelotl.Common.{
  ℕ, ◌+◌, ◌*◌, ◌≤◌, ◌<◌, ◌≡◌, refl, ap, sym, true, false, List, [], ◌∷◌, ◌++◌, arith,
}
use ocelotl.Core.Errors.{ok, err, is_err}
use ocelotl.Core.Words.{checked_add, checked_mul, checked_div, try_product}
use ocelotl.Core.KvLayout.{
  KvCacheLayout, DType, Device, checked_product, values_per_position, values_per_all_key_tensors,
}
use ocelotl.Core.PagedLayout
use ocelotl.Core.PagedLayout.{
  PagedKvCacheLayout, required_pages_for_tokens, validate_pages, validate_page_table,
  values_per_page_tensor,
}
use ocelotl.KvCache.Storage.{validate_cpu_f32_layout, filled}
use ocelotl.KvCache.Storage.Rows.{gather}
use ocelotl.KvCache.Contiguous
use ocelotl.KvCache.Contiguous.{ContiguousKvCache}
use ocelotl.KvCache.Contiguous.Contract.{contiguous_store}
use ocelotl.KvCache.Paged
use ocelotl.KvCache.Paged.{PagedKvCache}
use ocelotl.KvCache.Paged.Contract.{paged_store}
use ocelotl.KvCache.Store.Agreement.{Write, write_all, keys_after, values_after}
use ocelotl.KvCache.Equivalence.{zeros, paged_matches_contiguous, paged_refuses_with_contiguous}
use ocelotl.KvCache.Allocator
use ocelotl.KvCache.Allocator.{
  PagedKvCacheAllocator, range_from, insert_page, sort_unstable, pop_pages, put_back, allocate,
}
use ocelotl.KvCache.Allocator.Pages.{count}
use ocelotl.KvCache.Allocator.Outcomes.{IsSound, cache_layout}
use ocelotl.KvCache.Allocator.Given.{refused_keeps_pages}
use ocelotl.KvCache.Allocator.Conservation.{
  Pool, gives, releases, Reach, here, next, total, pages_conserved, allocate_takes_front,
}

-- Two layers, three tokens, one value a token, in pages of two tokens.
abbrev layout : KvCacheLayout
layout = record {
  num_layers = 2;
  num_key_value_heads = 1;
  capacity_tokens = 3;
  head_dim = 1;
  dtype = DType.f32;
  device = Device.cpu;
}

abbrev paged : PagedKvCacheLayout
paged = record { base = layout; page_size_tokens = 2; physical_pages = 3 }

abbrev contiguous_cache : ContiguousKvCache ℕ
contiguous_cache = record {
  layout = layout;
  keys = 0 ∷ 0 ∷ 0 ∷ 0 ∷ 0 ∷ 0 ∷ [];
  values = 0 ∷ 0 ∷ 0 ∷ 0 ∷ 0 ∷ 0 ∷ [];
  len_tokens = 0;
  released = false;
}

abbrev paged_cache : PagedKvCache ℕ
paged_cache = record {
  layout = paged;
  page_table = 2 ∷ 0 ∷ [];
  keys = 0 ∷ 0 ∷ 0 ∷ 0 ∷ 0 ∷ 0 ∷ 0 ∷ 0 ∷ [];
  values = 0 ∷ 0 ∷ 0 ∷ 0 ∷ 0 ∷ 0 ∷ 0 ∷ 0 ∷ [];
  len_tokens = 0;
  released = false;
}

contiguous_made : Contiguous.new 0 layout ≡ ok contiguous_cache
unfolding Contiguous.new validate_cpu_f32_layout values_per_all_key_tensors checked_product
    try_product checked_mul filled
contiguous_made = refl

paged_made : Paged.new_with_page_table 0 paged (2 ∷ 0 ∷ []) ≡ ok paged_cache
unfolding Paged.new_with_page_table validate_cpu_f32_layout validate_page_table validate_pages
    required_pages_for_tokens values_per_page_tensor values_per_position checked_product try_product
    checked_add checked_mul checked_div filled
paged_made = refl

abbrev writes : List (Write ℕ)
writes =
    record { layer = 1; position = 2; key = 7 ∷ []; value = 8 ∷ [] }
    ∷ record { layer = 0; position = 1; key = 5 ∷ []; value = 6 ∷ [] }
    ∷ []

abbrev out : List ℕ
out = 9 ∷ 9 ∷ 9 ∷ []

paged_matches_contiguous_example :
    (c' : ContiguousKvCache ℕ) × (d' : PagedKvCache ℕ) × (write_all
        (contiguous_store ℕ)
        writes
        contiguous_cache
      ≡ ok c')
    × (write_all (paged_store ℕ) writes paged_cache ≡ ok d')
    × (Contiguous.read_layer_keys c' 1 3 out
        ≡ (gather (keys_after writes (zeros 0 layout) 1) 3 0, ok tt))
    × (Paged.read_layer_keys d' 1 3 out ≡ Contiguous.read_layer_keys c' 1 3 out)
    × (Contiguous.read_layer_values c' 1 3 out
        ≡ (gather (values_after writes (zeros 0 layout) 1) 3 0, ok tt))
    × (Paged.read_layer_values d' 1 3 out ≡ Contiguous.read_layer_values c' 1 3 out)
paged_matches_contiguous_example =
    paged_matches_contiguous 0 paged (2 ∷ 0 ∷ []) contiguous_cache paged_cache writes 1 3 out
      (omega arith) (omega arith) (omega arith) contiguous_made paged_made refl (omega arith)
      (omega arith) refl

abbrev bad_writes : List (Write ℕ)
bad_writes = record { layer = 2; position = 0; key = 7 ∷ []; value = 8 ∷ [] } ∷ writes

paged_refuses_with_contiguous_example :
    (is_err (write_all (contiguous_store ℕ) bad_writes contiguous_cache) ≡ true)
    × (is_err (write_all (paged_store ℕ) bad_writes paged_cache) ≡ true)
paged_refuses_with_contiguous_example =
    paged_refuses_with_contiguous 0 paged (2 ∷ 0 ∷ []) contiguous_cache paged_cache bad_writes
      (omega arith) (omega arith) (omega arith) contiguous_made paged_made refl

abbrev allocator : List ℕ → PagedKvCacheAllocator
allocator free = record { layout = paged; free_pages = free }

two_pages : required_pages_for_tokens paged 3 ≡ ok 2
unfolding required_pages_for_tokens checked_add checked_div
two_pages = refl

paged-IsSound : IsSound paged
paged-IsSound = record {
  page_pos = omega arith;
  pages_pos = omega arith;
  most = 2;
  most_ok = two_pages;
  most_le = omega arith;
}

allocator_made : Allocator.new paged ≡ ok (allocator (0 ∷ 1 ∷ 2 ∷ []))
unfolding Allocator.new range_from validate_cpu_f32_layout
allocator_made = refl

-- The cache over the first two pages.
abbrev given_cache : PagedKvCache ℕ
given_cache = record paged_cache { page_table = 0 ∷ 1 ∷ [] }

allocated : allocate 0 (allocator (0 ∷ 1 ∷ 2 ∷ [])) 3 ≡ (allocator (2 ∷ []), ok given_cache)
unfolding allocate pop_pages put_back PagedLayout.new Paged.new_with_page_table
    validate_cpu_f32_layout validate_page_table validate_pages required_pages_for_tokens
    values_per_page_tensor values_per_position checked_product try_product checked_add checked_mul
    checked_div filled
allocated = refl

abbrev pool : List ℕ → List (PagedKvCache ℕ) → Pool ℕ
pool free live = record { allocator = allocator free; live = live }

-- The pool with the cache's pages back in order.
released : Allocator.release (allocator (2 ∷ [])) given_cache ≡ allocator (0 ∷ 1 ∷ 2 ∷ [])
unfolding Allocator.release Paged.release sort_unstable insert_page
released = refl

run : Reach {F = ℕ} 0 (pool (0 ∷ 1 ∷ 2 ∷ []) []) (pool (0 ∷ 1 ∷ 2 ∷ []) [])
run =
    next (next here (gives 3 (allocator (2 ∷ [])) given_cache allocated refl)) (
      releases given_cache [] [] refl
        (ap (λ a. record { allocator = a; live = [] }) (sym released)))

pages_conserved_example : total 1 (pool (0 ∷ 1 ∷ 2 ∷ []) []) ≡ 1
pages_conserved_example =
    pages_conserved 0 paged (allocator (0 ∷ 1 ∷ 2 ∷ [])) _ 1 paged-IsSound allocator_made run

allocate_takes_front_example :
    (given_cache.page_table ++ 2 ∷ [] ≡ 0 ∷ 1 ∷ 2 ∷ [])
    × (3 ≤ 2 * 2)
    × (2 * 2 < 3 + 2)
    × (paged ≡ cache_layout paged 3)
    × (paged ≡ paged)
allocate_takes_front_example =
    allocate_takes_front 0 (allocator (0 ∷ 1 ∷ 2 ∷ [])) (allocator (2 ∷ [])) 3 given_cache
      paged-IsSound allocated

refusal : (e : _) × (allocate {F = ℕ} 0 (allocator (2 ∷ [])) 3 ≡ (allocator (2 ∷ []), err e))
unfolding allocate required_pages_for_tokens checked_add checked_div
refusal = (_, refl)

refused_keeps_pages_example : (count 2 (2 ∷ []) ≡ count 2 (2 ∷ [])) × (paged ≡ paged)
refused_keeps_pages_example =
    refused_keeps_pages {F = ℕ} 0 (allocator (2 ∷ [])) (allocator (2 ∷ [])) 3 paged-IsSound
      refusal.0 2 refusal.1
