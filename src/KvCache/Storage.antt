-- ===== src/KvCache/Storage.antt =====
-- crates/runtime/src/kv_cache.rs: what the two caches share. A tensor is a list of values of an
-- abstract type `F` that stands for `f32`. The allocation of a vector fails by its size only.
pub mod Rows
pub mod Cells
use ocelotl.Common.{
  ℕ, zero, suc, ◌+◌, ◌-◌, ◌*◌, ◌^◌, Bool, true, false, List, leb, ltb, if◌then◌else◌, length, take,
  drop, replicate, String,
}
use ocelotl.Common.Slices.{splice}
use ocelotl.Core.Errors.{Result, ok, err, panic, ◌>>=◌, attempt, runtime_err}
use ocelotl.Core.Panics.{isize_max, allocated}
use ocelotl.Core.KvLayout.{KvCacheLayout, DType, f32, f16, bf16, q4, q8, Device, cpu, gpu}

abbrev is_f32 : DType → Bool
is_f32 f32 = true
is_f32 f16 = false
is_f32 bf16 = false
is_f32 q4 = false
is_f32 q8 = false

abbrev is_cpu : Device → Bool
is_cpu cpu = true
is_cpu (gpu ordinal) = false

unfoldable pub validate_cpu_f32_layout : KvCacheLayout → Result (Unit {0})
validate_cpu_f32_layout l =
    if is_f32 l.dtype
    then (if is_cpu l.device
        then ok tt
        else err (runtime_err "runtime KV cache storage is CPU-resident in M5-M7, got {:?}"))
    else err (runtime_err "runtime KV cache storage currently supports only F32, got {:?}")

module _ {F : Type 0} where
  -- `vec![zero; n]` of four-byte values.
  unfoldable pub filled : F → ℕ → Result (List F)
  filled zero_value n = allocated (4 * n) (replicate n zero_value)

  -- `&xs[start..start + width]`.
  unfoldable pub slice : List F → ℕ → ℕ → Result (List F)
  slice xs start width =
      if leb (start + width) (length xs) then ok (take width (drop start xs)) else panic

  -- `xs[start..start + src.len()].copy_from_slice(src)`.
  unfoldable pub copy_into : List F → ℕ → List F → Result (List F)
  copy_into xs start src =
      if leb (start + length src) (length xs) then ok (splice xs start src) else panic

  -- The loop `for position in 0..len_tokens` of `copy_contiguous_layer` and `copy_paged_layer`,
  -- from `position` on with `rounds` to go. The buffer keeps what was copied before an error.
  unfoldable pub copy_rows :
      (ℕ → Result ℕ) → List F → ℕ → ℕ → ℕ → List F → List F × Result (Unit {0})
  copy_rows offset src width zero position out = (out, ok tt)
  copy_rows offset src width (suc rounds) position out =
      attempt
        (do
          src_start ← offset position
          row ← slice src src_start width
          copy_into out (position * width) row)
        out (λ out'. copy_rows offset src width rounds (position + 1) out')
