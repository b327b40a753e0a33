-- ===== src/Loader/Gguf/Values/Least.antt =====
-- How many bytes a text and a metadata value take at least.
use ocelotl.Common.{
  ℕ, zero, suc, ◌+◌, ◌*◌, inl, inr, Bool, ◌||◌, List, String, ltb, arith, Bool-cases,
}
use ocelotl.Loader.Gguf.Types.{GgufMetadataType, GgufMetadataValue, type_from_raw}
use ocelotl.Loader.Gguf.Reader.{
  ◌>>=◌, done, lift, read_exact_header_part, read_le, read_bool, skip_bytes, collect, repeat,
}
use ocelotl.Loader.Gguf.Reader.Moves.{Takes}
use ocelotl.Loader.Gguf.Values.{
  try_reserve_exact, read_text, read_string, skip_string, read_array_header, skip_metadata_value,
  is_bool, read_array, read_metadata_value,
}
use ocelotl.Loader.Gguf.Reader.Takes.{
  Stays, bind-Takes, after-Takes, before-Takes, weaker-Takes, bytes-Takes, le-Takes, bool-Takes,
  lift-Stays, guarded-Takes, collect-Takes, repeat-Takes, skip_bytes-Takes,
}

open_header-Takes : (left : ℕ) → Takes 12 (read_array_header (suc left))
unfolding read_array_header
open_header-Takes left = bind-Takes 4 8 (read_le 4) _ (le-Takes 4) (λ raw.
    before-Takes 8 (λ r. lift (type_from_raw r.path "metadata array" raw) r) _
      (λ r s a h. lift-Stays (type_from_raw r.path "metadata array" raw) r s a h)
      (λ t. after-Takes 8 (read_le 8) _ (le-Takes 8) (λ len r s a h. ground arith)))

pub header-Takes : (left : ℕ) → Takes 12 (read_array_header left)
unfolding read_array_header
header-Takes zero r s a v h = absurd (ground arith)
header-Takes (suc left) r s a v h = open_header-Takes left r s a v h

-- A length, and that many bytes behind a guard.
string_skip-Takes : (field : String) (max_len : ℕ) → Takes 8 (skip_string field max_len)
unfolding skip_string
string_skip-Takes field max_len = bind-Takes 8 0 (read_le 8) _ (le-Takes 8) (λ len.
    guarded-Takes 0 (λ r. ltb max_len len || ltb r.limits.max_metadata_string_bytes len) _
      (skip_bytes len) (λ r s a h. cc)
      (weaker-Takes 0 len (skip_bytes len) (omega arith) (skip_bytes-Takes len)))

pub skip-Takes : (left : ℕ) (t : GgufMetadataType) → Takes 1 (skip_metadata_value left t)
unfolding skip_metadata_value
skip-Takes left GgufMetadataType.u8 = skip_bytes-Takes 1
skip-Takes left GgufMetadataType.i8 = skip_bytes-Takes 1
skip-Takes left GgufMetadataType.bool = skip_bytes-Takes 1
skip-Takes left GgufMetadataType.u16 = weaker-Takes 1 2 _ (omega arith) (skip_bytes-Takes 2)
skip-Takes left GgufMetadataType.i16 = weaker-Takes 1 2 _ (omega arith) (skip_bytes-Takes 2)
skip-Takes left GgufMetadataType.u32 = weaker-Takes 1 4 _ (omega arith) (skip_bytes-Takes 4)
skip-Takes left GgufMetadataType.i32 = weaker-Takes 1 4 _ (omega arith) (skip_bytes-Takes 4)
skip-Takes left GgufMetadataType.f32 = weaker-Takes 1 4 _ (omega arith) (skip_bytes-Takes 4)
skip-Takes left GgufMetadataType.u64 = weaker-Takes 1 8 _ (omega arith) (skip_bytes-Takes 8)
skip-Takes left GgufMetadataType.i64 = weaker-Takes 1 8 _ (omega arith) (skip_bytes-Takes 8)
skip-Takes left GgufMetadataType.f64 = weaker-Takes 1 8 _ (omega arith) (skip_bytes-Takes 8)
skip-Takes left GgufMetadataType.string =
    weaker-Takes 1 8 _ (omega arith) (λ r s a v h.
      string_skip-Takes "metadata string" r.limits.max_metadata_string_bytes r s a v h)
skip-Takes zero GgufMetadataType.array = λ r s a v h. absurd (cc)
skip-Takes (suc left) GgufMetadataType.array = weaker-Takes 1 (12 + 0) _ (omega arith) (
    bind-Takes 12 0 (read_array_header (suc left)) _ (header-Takes (suc left)) (λ header.
      weaker-Takes 0 (header.1 * 1) _ (omega arith)
        (repeat-Takes (header.1) 1 _ (skip-Takes left (header.0)))))

module _ (is_utf8 : List ℕ → Bool) (can_reserve : String → ℕ → Bool) where
  pub reserve-Stays :
      (field : String) (n : ℕ) → Stays (try_reserve_exact is_utf8 can_reserve field n)
  unfolding try_reserve_exact
  reserve-Stays field n r s a h = ground arith

  pub text-Takes : (field : String) (len : ℕ) → Takes len (read_text is_utf8 can_reserve field len)
  unfolding read_text
  text-Takes field len =
      before-Takes len (try_reserve_exact is_utf8 can_reserve field len) _ (reserve-Stays field len)
        (λ _.
          after-Takes len (read_exact_header_part len) _ (bytes-Takes len)
            (λ bytes r s a h. ground arith))

  pub string-Takes :
      (field : String) (max_len : ℕ) → Takes 8 (read_string is_utf8 can_reserve field max_len)
  unfolding read_string
  string-Takes field max_len = bind-Takes 8 0 (read_le 8) _ (le-Takes 8) (λ len.
      guarded-Takes 0 (λ r. ltb max_len len || ltb r.limits.max_metadata_string_bytes len) _
        (read_text is_utf8 can_reserve field len) (λ r s a h. cc)
        (weaker-Takes 0 len _ (omega arith) (text-Takes field len)))

  -- Of an array behind its header.
  array-Takes :
      (left : ℕ) (t : GgufMetadataType) (len : ℕ)
      → Takes 0 (read_array is_utf8 can_reserve left t len)
  unfolding read_array
  array-Takes left t len = elim (Bool-cases (is_bool t)) [
    | inl e ↦ rw e (
        before-Takes 0 (try_reserve_exact is_utf8 can_reserve "metadata bool array" len) _
          (reserve-Stays "metadata bool array" len)
          (λ _. weaker-Takes 0 (len * 1) _ (omega arith) (
            after-Takes (len * 1) (collect len read_bool) _
              (collect-Takes len 1 read_bool bool-Takes) (λ a r s b h. cc))))
    | inr e ↦ rw e (
        weaker-Takes 0 (len * 1) _ (omega arith) (
          after-Takes (len * 1) (repeat len (skip_metadata_value left t)) _
            (repeat-Takes len 1 _ (skip-Takes left t)) (λ a r s b h. cc)))
  ]

  number-Takes : (n : ℕ) (c : ℕ → GgufMetadataValue) → Takes n (read_le n >>= λ v. done (c v))
  number-Takes n c = after-Takes n (read_le n) _ (le-Takes n) (λ v r s a h. cc)

  pub value-Takes :
      (left : ℕ) (t : GgufMetadataType) → Takes 1 (read_metadata_value is_utf8 can_reserve left t)
  unfolding read_metadata_value
  value-Takes left GgufMetadataType.u8 = number-Takes 1 GgufMetadataValue.u8
  value-Takes left GgufMetadataType.i8 = number-Takes 1 GgufMetadataValue.i8
  value-Takes left GgufMetadataType.u16 =
      weaker-Takes 1 2 _ (omega arith) (number-Takes 2 GgufMetadataValue.u16)
  value-Takes left GgufMetadataType.i16 =
      weaker-Takes 1 2 _ (omega arith) (number-Takes 2 GgufMetadataValue.i16)
  value-Takes left GgufMetadataType.u32 =
      weaker-Takes 1 4 _ (omega arith) (number-Takes 4 GgufMetadataValue.u32)
  value-Takes left GgufMetadataType.i32 =
      weaker-Takes 1 4 _ (omega arith) (number-Takes 4 GgufMetadataValue.i32)
  value-Takes left GgufMetadataType.f32 =
      weaker-Takes 1 4 _ (omega arith) (number-Takes 4 GgufMetadataValue.f32)
  value-Takes left GgufMetadataType.u64 =
      weaker-Takes 1 8 _ (omega arith) (number-Takes 8 GgufMetadataValue.u64)
  value-Takes left GgufMetadataType.i64 =
      weaker-Takes 1 8 _ (omega arith) (number-Takes 8 GgufMetadataValue.i64)
  value-Takes left GgufMetadataType.f64 =
      weaker-Takes 1 8 _ (omega arith) (number-Takes 8 GgufMetadataValue.f64)
  value-Takes left GgufMetadataType.bool = after-Takes 1 read_bool _ bool-Takes (λ b r s a h. cc)
  value-Takes left GgufMetadataType.string = weaker-Takes 1 8 _ (omega arith) (
      after-Takes 8
        (λ r.
          read_string is_utf8 can_reserve "metadata string" r.limits.max_metadata_string_bytes r)
        _ (λ r s a v h. string-Takes "metadata string" r.limits.max_metadata_string_bytes r s a v h)
        (λ b r s a h. cc))
  value-Takes zero GgufMetadataType.array = λ r s a v h. absurd (cc)
  value-Takes (suc left) GgufMetadataType.array = weaker-Takes 1 (12 + 0) _ (omega arith) (
      bind-Takes 12 0 (read_array_header (suc left)) _ (header-Takes (suc left))
        (λ header. array-Takes left (header.0) (header.1)))
