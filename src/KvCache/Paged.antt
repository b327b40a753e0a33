-- ===== src/KvCache/Paged.antt =====
-- crates/runtime/src/kv_cache.rs, `PagedKvCache`. A method that changes the cache returns the new
-- one; it fails before it has changed anything.
pub mod Offsets
pub mod Laws
pub mod Contract
use ocelotl.Common.{
  ℕ, zero, ◌+◌, Bool, true, false, ◌||◌, not, Option, none, some, List, [], ◌∷◌, ltb, leb, ◌==◌,
  if◌then◌else◌, length, get_elem?,
}
use ocelotl.Core.Errors.{Result, ok, err, ◌>>=◌, ◌>>◌, attempt, ok_or, runtime_err}
use ocelotl.Core.Words.{checked_add}
use ocelotl.Core.KvLayout.{KvCacheLayout, checked_product, values_per_position}
use ocelotl.Core.PagedLayout.{
  PagedKvCacheLayout, and_then, logical_page_and_offset, values_per_page_tensor,
  validate_page_table,
}
use ocelotl.KvCache.Storage.{validate_cpu_f32_layout, filled, slice, copy_into, copy_rows}

pub record PagedKvCache (F : Type 0) : Type 0 where
  pub layout : PagedKvCacheLayout
  pub page_table : List ℕ
  pub keys : List F
  pub values : List F
  pub len_tokens : ℕ
  pub released : Bool

module _ {F : Type 0} where
  unfoldable pub new_with_page_table : F → PagedKvCacheLayout → List ℕ → Result (PagedKvCache F)
  new_with_page_table zero_value layout page_table = do
    validate_cpu_f32_layout layout.base
    validate_page_table layout page_table
    page_values ← values_per_page_tensor layout
    tensor_values ← checked_product (layout.base.num_layers ∷ length page_table ∷ page_values ∷ [])
    keys ← filled zero_value tensor_values
    values ← filled zero_value tensor_values
    ok (record {
      layout = layout;
      page_table = page_table;
      keys = keys;
      values = values;
      len_tokens = 0;
      released = false;
    })

  unfoldable pub physical_page_for_position : PagedKvCache F → ℕ → Result ℕ
  physical_page_for_position c position = do
    place ← logical_page_and_offset c.layout position
    ok_or (get_elem? c.page_table place.0)
        (runtime_err "missing page table entry for logical page {logical}")

  -- The new cache, and the pages that it gives back.
  unfoldable pub release : PagedKvCache F → PagedKvCache F × List ℕ
  release c = (
    record c { page_table = []; keys = []; values = []; len_tokens = 0; released = true },
    c.page_table,
  )

  unfoldable pub ensure_active : PagedKvCache F → Result (Unit {0})
  ensure_active c =
      if c.released then err (runtime_err "paged kv cache has been released") else ok tt

  unfoldable pub storage_offset : PagedKvCache F → ℕ → ℕ → Result ℕ
  storage_offset c layer position =
      if leb c.layout.base.num_layers layer
      then err (runtime_err "paged kv layer {layer} out of range for {} layers")
      else do
        place ← logical_page_and_offset c.layout position
        if leb (length c.page_table) place.0
            then err (runtime_err "paged kv logical page {logical_page} missing from page table")
            else do
              page_values ← values_per_page_tensor c.layout
              layer_base ← checked_product (layer ∷ length c.page_table ∷ page_values ∷ [])
              page_base ← checked_product (place.0 ∷ page_values ∷ [])
              width ← values_per_position c.layout.base
              token_base ← checked_product (place.1 ∷ width ∷ [])
              ok_or (and_then (checked_add layer_base page_base) (λ v. checked_add v token_base))
                  (runtime_err "paged kv storage offset overflowed usize")

  unfoldable pub set_len_tokens : PagedKvCache F → ℕ → Result (PagedKvCache F)
  set_len_tokens c len_tokens = do
    ensure_active c
    if ltb c.layout.base.capacity_tokens len_tokens
        then err (runtime_err "paged kv len {len_tokens} exceeds capacity {}")
        else ok (record c { len_tokens = len_tokens })

  unfoldable pub write_layer_kv : PagedKvCache F → ℕ → ℕ → List F → List F → Result (PagedKvCache F)
  write_layer_kv c layer position key value = do
    ensure_active c
    width ← values_per_position c.layout.base
    if not (length key == width) || not (length value == width)
        then err (runtime_err "paged kv write expected key/value length {width}, got {}/{}")
        else do
          start ← storage_offset c layer position
          keys ← copy_into c.keys start key
          values ← copy_into c.values start value
          ok (record c { keys = keys; values = values })

  unfoldable pub copy_paged_layer :
      PagedKvCache F → List F → ℕ → ℕ → List F → List F × Result (Unit {0})
  copy_paged_layer c src layer len_tokens out =
      if ltb c.layout.base.capacity_tokens len_tokens
      then (out, err (runtime_err "paged kv read len {len_tokens} exceeds capacity {}"))
      else attempt (values_per_position c.layout.base) out (λ width.
        attempt (checked_product (len_tokens ∷ width ∷ [])) out (λ expected.
          if length out == expected
          then copy_rows (storage_offset c layer) src width len_tokens 0 out
          else (
            out,
            err (runtime_err "paged kv read {label} expected output length {expected}, got {}"),
          )))

  unfoldable pub read_layer_keys : PagedKvCache F → ℕ → ℕ → List F → List F × Result (Unit {0})
  read_layer_keys c layer len_tokens out =
      attempt (ensure_active c) out (λ _. copy_paged_layer c c.keys layer len_tokens out)

  unfoldable pub read_layer_values : PagedKvCache F → ℕ → ℕ → List F → List F × Result (Unit {0})
  read_layer_values c layer len_tokens out =
      attempt (ensure_active c) out (λ _. copy_paged_layer c c.values layer len_tokens out)
