-- ===== src/Loader/Gguf/Values.antt =====
-- crates/loader/src/gguf_inspect.rs, `GgufReader`: texts and metadata values, read and skipped. What
-- the standard library answers is a parameter: whether bytes are UTF-8, and whether room for a number
-- of entries is found. A `u64` is a `usize` here, so no conversion between them fails.
-- `left` is how many levels of arrays may still be opened: `max_array_depth` less the depth.
pub mod Skips
pub mod Least
pub mod Kept
use ocelotl.Common.{
  ℕ, zero, suc, Bool, true, false, ◌||◌, List, [], ◌∷◌, String, ltb, ◌==◌, if◌then◌else◌,
}
use ocelotl.Core.Errors.{Result, ok, err}
use ocelotl.Loader.Gguf.Types.{GgufMetadataType, GgufMetadataValue, type_from_raw, invalid_gguf}
use ocelotl.Loader.Gguf.Reader.{
  GgufReader, Reading, ◌>>=◌, ◌>>◌, done, failed, lift, read_exact_header_part, read_u8, read_u16,
  read_u32, read_u64, read_bool, skip_bytes, collect, repeat,
}

module _ (is_utf8 : List ℕ → Bool) (can_reserve : String → ℕ → Bool) where
  unfoldable pub try_reserve_exact : String → ℕ → Reading (Unit {0})
  try_reserve_exact field count =
      if can_reserve field count
      then done tt
      else failed field "failed to reserve {count} GGUF entries: {source}"

  -- The bytes of a text, once its length is known.
  unfoldable pub read_text : String → ℕ → Reading (List ℕ)
  read_text field len = do
    try_reserve_exact field len
    bytes ← read_exact_header_part len
    if is_utf8 bytes then done bytes else failed field "GGUF {field} is not UTF-8: {source}"

  unfoldable pub read_string : String → ℕ → Reading (List ℕ)
  read_string field max_len = do
    len ← read_u64
    λ r.
        if ltb max_len len || ltb r.limits.max_metadata_string_bytes len
        then err (invalid_gguf r.path field "GGUF {field} length {len} exceeds max {max_len}")
        else read_text field len r

unfoldable pub skip_string : String → ℕ → Reading (Unit {0})
skip_string field max_len = do
  len ← read_u64
  λ r.
      if ltb max_len len || ltb r.limits.max_metadata_string_bytes len
      then err (invalid_gguf r.path field "GGUF {field} length {len} exceeds max {max_len}")
      else skip_bytes len r

-- The type and the length of an array, where a level is left.
unfoldable pub read_array_header : ℕ → Reading (GgufMetadataType × ℕ)
read_array_header zero = failed "metadata array" "GGUF metadata array nesting exceeds max depth {}"
read_array_header (suc left) = do
  raw ← read_u32
  element_type ← λ r. lift (type_from_raw r.path "metadata array" raw) r
  len ← read_u64
  λ r.
      if ltb r.limits.max_array_elements len
      then err
          (invalid_gguf r.path "metadata array" "GGUF metadata array length {len} exceeds max {}")
      else ok ((element_type, len), r)

-- `read_string` and `skip_string` with the limit on all texts.
abbrev pub skip_metadata_string : Reading (Unit {0})
skip_metadata_string r = skip_string "metadata string" r.limits.max_metadata_string_bytes r

unfoldable pub skip_metadata_value : ℕ → GgufMetadataType → Reading (Unit {0})
skip_metadata_value left GgufMetadataType.u8 = skip_bytes 1
skip_metadata_value left GgufMetadataType.i8 = skip_bytes 1
skip_metadata_value left GgufMetadataType.bool = skip_bytes 1
skip_metadata_value left GgufMetadataType.u16 = skip_bytes 2
skip_metadata_value left GgufMetadataType.i16 = skip_bytes 2
skip_metadata_value left GgufMetadataType.u32 = skip_bytes 4
skip_metadata_value left GgufMetadataType.i32 = skip_bytes 4
skip_metadata_value left GgufMetadataType.f32 = skip_bytes 4
skip_metadata_value left GgufMetadataType.u64 = skip_bytes 8
skip_metadata_value left GgufMetadataType.i64 = skip_bytes 8
skip_metadata_value left GgufMetadataType.f64 = skip_bytes 8
skip_metadata_value left GgufMetadataType.string = skip_metadata_string
skip_metadata_value zero GgufMetadataType.array =
    failed "metadata array" "GGUF metadata array nesting exceeds max depth {}"
skip_metadata_value (suc left) GgufMetadataType.array = read_array_header (suc left) >>= λ header.
    repeat (header.1) (skip_metadata_value left (header.0))

abbrev pub is_bool : GgufMetadataType → Bool
is_bool GgufMetadataType.bool = true
is_bool _ = false

module _ (is_utf8 : List ℕ → Bool) (can_reserve : String → ℕ → Bool) where
  -- An array of Booleans is read, any other is skipped.
  unfoldable pub read_array : ℕ → GgufMetadataType → ℕ → Reading GgufMetadataValue
  read_array left element_type len =
      if is_bool element_type
      then (try_reserve_exact is_utf8 can_reserve "metadata bool array" len
          >> (collect len read_bool >>= λ values. done (GgufMetadataValue.bool_array values)))
      else (repeat len (skip_metadata_value left element_type)
          >> done (GgufMetadataValue.array element_type len))

  unfoldable pub read_metadata_value : ℕ → GgufMetadataType → Reading GgufMetadataValue
  read_metadata_value left GgufMetadataType.u8 = read_u8 >>= λ n. done (GgufMetadataValue.u8 n)
  read_metadata_value left GgufMetadataType.i8 = read_u8 >>= λ n. done (GgufMetadataValue.i8 n)
  read_metadata_value left GgufMetadataType.u16 = read_u16 >>= λ n. done (GgufMetadataValue.u16 n)
  read_metadata_value left GgufMetadataType.i16 = read_u16 >>= λ n. done (GgufMetadataValue.i16 n)
  read_metadata_value left GgufMetadataType.u32 = read_u32 >>= λ n. done (GgufMetadataValue.u32 n)
  read_metadata_value left GgufMetadataType.i32 = read_u32 >>= λ n. done (GgufMetadataValue.i32 n)
  read_metadata_value left GgufMetadataType.f32 = read_u32 >>= λ n. done (GgufMetadataValue.f32 n)
  read_metadata_value left GgufMetadataType.bool =
      read_bool >>= λ b. done (GgufMetadataValue.bool b)
  read_metadata_value left GgufMetadataType.string =
      (λ r. read_string is_utf8 can_reserve "metadata string" r.limits.max_metadata_string_bytes r)
      >>= λ s. done (GgufMetadataValue.string s)
  read_metadata_value zero GgufMetadataType.array =
      failed "metadata array" "GGUF metadata array nesting exceeds max depth {}"
  read_metadata_value (suc left) GgufMetadataType.array =
      read_array_header (suc left) >>= λ header. read_array left (header.0) (header.1)
  read_metadata_value left GgufMetadataType.u64 = read_u64 >>= λ n. done (GgufMetadataValue.u64 n)
  read_metadata_value left GgufMetadataType.i64 = read_u64 >>= λ n. done (GgufMetadataValue.i64 n)
  read_metadata_value left GgufMetadataType.f64 = read_u64 >>= λ n. done (GgufMetadataValue.f64 n)
