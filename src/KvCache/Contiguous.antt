-- ===== src/KvCache/Contiguous.antt =====
-- crates/runtime/src/kv_cache.rs, `ContiguousKvCache`. A method that changes the cache returns the
-- new one; it fails before it has changed anything.
pub mod Laws
pub mod Contract
use ocelotl.Common.{
  ℕ, zero, Bool, true, false, ◌||◌, not, List, [], ◌∷◌, ltb, ◌==◌, if◌then◌else◌, length,
}
use ocelotl.Core.Errors.{Result, ok, err, ◌>>=◌, ◌>>◌, attempt, runtime_err}
use ocelotl.Core.KvLayout.{
  KvCacheLayout, checked_product, values_per_position, values_per_all_key_tensors,
  layer_position_offset,
}
use ocelotl.KvCache.Storage.{validate_cpu_f32_layout, filled, slice, copy_into, copy_rows}

pub record ContiguousKvCache (F : Type 0) : Type 0 where
  pub layout : KvCacheLayout
  pub keys : List F
  pub values : List F
  pub len_tokens : ℕ
  pub released : Bool

module _ {F : Type 0} where
  unfoldable pub new : F → KvCacheLayout → Result (ContiguousKvCache F)
  new zero_value layout = do
    validate_cpu_f32_layout layout
    n ← values_per_all_key_tensors layout
    keys ← filled zero_value n
    values ← filled zero_value n
    ok (record { layout = layout; keys = keys; values = values; len_tokens = 0; released = false })

  unfoldable pub release : ContiguousKvCache F → ContiguousKvCache F
  release c = record c { keys = []; values = []; len_tokens = 0; released = true }

  unfoldable pub ensure_active : ContiguousKvCache F → Result (Unit {0})
  ensure_active c =
      if c.released then err (runtime_err "contiguous kv cache has been released") else ok tt

  unfoldable pub key_at : ContiguousKvCache F → ℕ → ℕ → Result (List F)
  key_at c layer position = do
    ensure_active c
    width ← values_per_position c.layout
    start ← layer_position_offset c.layout layer position
    slice c.keys start width

  unfoldable pub value_at : ContiguousKvCache F → ℕ → ℕ → Result (List F)
  value_at c layer position = do
    ensure_active c
    width ← values_per_position c.layout
    start ← layer_position_offset c.layout layer position
    slice c.values start width

  unfoldable pub set_len_tokens : ContiguousKvCache F → ℕ → Result (ContiguousKvCache F)
  set_len_tokens c len_tokens = do
    ensure_active c
    if ltb c.layout.capacity_tokens len_tokens
        then err (runtime_err "contiguous kv len {len_tokens} exceeds capacity {}")
        else ok (record c { len_tokens = len_tokens })

  unfoldable pub write_layer_kv :
      ContiguousKvCache F → ℕ → ℕ → List F → List F → Result (ContiguousKvCache F)
  write_layer_kv c layer position key value = do
    ensure_active c
    width ← values_per_position c.layout
    if not (length key == width) || not (length value == width)
        then err (runtime_err "contiguous kv write expected key/value length {width}, got {}/{}")
        else do
          start ← layer_position_offset c.layout layer position
          keys ← copy_into c.keys start key
          values ← copy_into c.values start value
          ok (record c { keys = keys; values = values })

  unfoldable pub copy_contiguous_layer :
      KvCacheLayout → List F → ℕ → ℕ → List F → List F × Result (Unit {0})
  copy_contiguous_layer layout src layer len_tokens out =
      if ltb layout.capacity_tokens len_tokens
      then (out, err (runtime_err "contiguous kv read len {len_tokens} exceeds capacity {}"))
      else attempt (values_per_position layout) out (λ width.
        attempt (checked_product (len_tokens ∷ width ∷ [])) out (λ expected.
          if length out == expected
          then copy_rows (layer_position_offset layout layer) src width len_tokens 0 out
          else (
            out,
            err (
                runtime_err "contiguous kv read {label} expected output length {expected}, got {}"),
          )))

  unfoldable pub read_layer_keys : ContiguousKvCache F → ℕ → ℕ → List F → List F × Result (Unit {0})
  read_layer_keys c layer len_tokens out =
      attempt (ensure_active c) out
        (λ _. copy_contiguous_layer c.layout c.keys layer len_tokens out)

  unfoldable pub read_layer_values :
      ContiguousKvCache F → ℕ → ℕ → List F → List F × Result (Unit {0})
  read_layer_values c layer len_tokens out =
      attempt (ensure_active c) out
        (λ _. copy_contiguous_layer c.layout c.values layer len_tokens out)
