-- ===== src/Loader/Gguf/Types.antt =====
-- crates/loader/src/gguf_inspect.rs: the data types of a GGUF header. A text is the list of its UTF-8
-- bytes; a signed integer is its two's complement pattern and a float its bit pattern.
use Prim.Native.Char.{code}
use ocelotl.Common.{
  ℕ, ◌/◌, ◌%◌, Bool, true, false, ◌&&◌, Option, none, some, List, [], ◌∷◌, String, ◌==◌,
  if◌then◌else◌,
}
use ocelotl.Core.Errors.{OcelotlError, Result, ok, err, ok_or, invalid_model_err}
use ocelotl.Core.Words.{checked_mul}

-- The bytes of an ASCII text.
abbrev pub codes : String → List ℕ
codes String.[] = []
codes (String.◌∷◌ c s) = code c ∷ codes s

abbrev pub same_text : List ℕ → List ℕ → Bool
same_text [] [] = true
same_text (x ∷ xs) (y ∷ ys) = x == y && same_text xs ys
same_text _ _ = false

-- `invalid_gguf`. Where the field is a name from the file, it is left out like the values that a
-- message prints.
abbrev pub invalid_gguf : Option String → String → String → OcelotlError
invalid_gguf path field message = invalid_model_err path field message

pub data GgufMetadataType : Type 0 where
  u8 i8 u16 i16 u32 i32 f32 bool string array u64 i64 f64 : GgufMetadataType

pub data GgufMetadataValue : Type 0 where
  u8 i8 u16 i16 u32 i32 f32 : ℕ → GgufMetadataValue
  bool : Bool → GgufMetadataValue
  string : List ℕ → GgufMetadataValue
  bool_array : List Bool → GgufMetadataValue
  array : GgufMetadataType → ℕ → GgufMetadataValue
  u64 i64 f64 : ℕ → GgufMetadataValue

pub record GgufMetadataEntry : Type 0 where
  pub key : List ℕ
  pub value : GgufMetadataValue

pub record GgmlQuantLayout : Type 0 where
  pub block_element_count : ℕ
  pub block_byte_len : ℕ

pub data GgmlTensorType : Type 0 where
  f32 f16 q4_0 q4_1 q5_0 q5_1 q8_0 q8_1 q2_k q3_k q4_k q5_k q6_k q8_k iq2_xxs iq2_xs iq3_xxs iq1_s
        iq4_nl iq3_s iq2_s iq4_xs i8 i16 i32 i64 f64 iq1_m bf16 tq1_0 tq2_0 mxfp4 :
      GgmlTensorType
  unknown : ℕ → GgmlTensorType

pub record GgufTensorEntry : Type 0 where
  pub name : List ℕ
  pub shape : List ℕ
  pub tensor_type : GgmlTensorType
  pub offset : ℕ
  pub file_offset : ℕ
  pub byte_len : Option ℕ

pub record GgufManifest : Type 0 where
  pub version : ℕ
  pub metadata : List GgufMetadataEntry
  pub tensors : List GgufTensorEntry
  pub alignment : ℕ
  pub data_start : ℕ
  pub file_len : ℕ

-- `GgufMetadataType::from_raw`, as an option.
abbrev pub type_of_raw : ℕ → Option GgufMetadataType
type_of_raw raw =
    if raw == 0
    then some GgufMetadataType.u8
    else (if raw == 1
        then some GgufMetadataType.i8
        else (if raw == 2
            then some GgufMetadataType.u16
            else (if raw == 3
                then some GgufMetadataType.i16
                else (if raw == 4
                    then some GgufMetadataType.u32
                    else (if raw == 5
                        then some GgufMetadataType.i32
                        else (if raw == 6
                            then some GgufMetadataType.f32
                            else (if raw == 7
                                then some GgufMetadataType.bool
                                else (if raw == 8
                                    then some GgufMetadataType.string
                                    else (if raw == 9
                                        then some GgufMetadataType.array
                                        else (if raw == 10
                                            then some GgufMetadataType.u64
                                            else (if raw == 11
                                                then some GgufMetadataType.i64
                                                else (if raw == 12
                                                    then some GgufMetadataType.f64
                                                    else none))))))))))))

unfoldable pub type_from_raw : Option String → String → ℕ → Result GgufMetadataType
type_from_raw path field raw =
    ok_or (type_of_raw raw) (invalid_gguf path field "unknown GGUF metadata value type {other}")

unfoldable pub tensor_type_from_raw : ℕ → GgmlTensorType
tensor_type_from_raw raw =
    if raw == 0
    then GgmlTensorType.f32
    else (if raw == 1
        then GgmlTensorType.f16
        else (if raw == 2
            then GgmlTensorType.q4_0
            else (if raw == 3
                then GgmlTensorType.q4_1
                else (if raw == 6
                    then GgmlTensorType.q5_0
                    else (if raw == 7
                        then GgmlTensorType.q5_1
                        else (if raw == 8
                            then GgmlTensorType.q8_0
                            else (if raw == 9
                                then GgmlTensorType.q8_1
                                else (if raw == 10
                                    then GgmlTensorType.q2_k
                                    else (if raw == 11
                                        then GgmlTensorType.q3_k
                                        else (if raw == 12
                                            then GgmlTensorType.q4_k
                                            else (if raw == 13
                                                then GgmlTensorType.q5_k
                                                else (if raw == 14
                                                    then GgmlTensorType.q6_k
                                                    else (if raw == 15
                                                        then GgmlTensorType.q8_k
                                                        else (if raw == 16
                                                            then GgmlTensorType.iq2_xxs
                                                            else (if raw == 17
                                                            then GgmlTensorType.iq2_xs
                                                            else (if raw == 18
                                                            then GgmlTensorType.iq3_xxs
                                                            else (if raw == 19
                                                            then GgmlTensorType.iq1_s
                                                            else (if raw == 20
                                                            then GgmlTensorType.iq4_nl
                                                            else (if raw == 21
                                                            then GgmlTensorType.iq3_s
                                                            else (if raw == 22
                                                            then GgmlTensorType.iq2_s
                                                            else (if raw == 23
                                                            then GgmlTensorType.iq4_xs
                                                            else (if raw == 24
                                                            then GgmlTensorType.i8
                                                            else (if raw == 25
                                                            then GgmlTensorType.i16
                                                            else (if raw == 26
                                                            then GgmlTensorType.i32
                                                            else (if raw == 27
                                                            then GgmlTensorType.i64
                                                            else (if raw == 28
                                                            then GgmlTensorType.f64
                                                            else (if raw == 29
                                                            then GgmlTensorType.iq1_m
                                                            else (if raw == 30
                                                            then GgmlTensorType.bf16
                                                            else (if raw == 34
                                                            then GgmlTensorType.tq1_0
                                                            else (if raw == 35
                                                            then GgmlTensorType.tq2_0
                                                            else (if raw == 39
                                                            then GgmlTensorType.mxfp4
                                                            else (GgmlTensorType.unknown
                                                            raw))))))))))))))))))))))))))))))))

abbrev pub quant_layout : GgmlTensorType → Option GgmlQuantLayout
quant_layout GgmlTensorType.q4_k = some (record { block_element_count = 256; block_byte_len = 144 })
quant_layout GgmlTensorType.q5_k = some (record { block_element_count = 256; block_byte_len = 176 })
quant_layout GgmlTensorType.q6_k = some (record { block_element_count = 256; block_byte_len = 210 })
quant_layout _ = none

abbrev pub fixed_element_size : GgmlTensorType → Option ℕ
fixed_element_size GgmlTensorType.f32 = some 4
fixed_element_size GgmlTensorType.i32 = some 4
fixed_element_size GgmlTensorType.f16 = some 2
fixed_element_size GgmlTensorType.bf16 = some 2
fixed_element_size GgmlTensorType.i16 = some 2
fixed_element_size GgmlTensorType.i8 = some 1
fixed_element_size GgmlTensorType.i64 = some 8
fixed_element_size GgmlTensorType.f64 = some 8
fixed_element_size _ = none

abbrev head_dim : List ℕ → Option ℕ
head_dim [] = none
head_dim (d ∷ ds) = some d

-- The bytes of `element_count` values in blocks; the first dimension is the length of a row.
unfoldable pub quant_byte_len : Option String → GgmlQuantLayout → List ℕ → ℕ → Result (Option ℕ)
quant_byte_len path layout shape element_count = elim (head_dim shape) [
  | none ↦ err (invalid_gguf path "{tensor_name}" "GGUF tensor has no row dimension")
  | some row ↦
      if row % layout.block_element_count == 0
      then (if element_count % layout.block_element_count == 0
          then elim (checked_mul (element_count / layout.block_element_count)
              layout.block_byte_len) [
                | none ↦
                    err (invalid_gguf path "{tensor_name}" "GGUF tensor byte length overflows u64")
                | some n ↦ ok (some n)
              ]
          else err (
              invalid_gguf path "{tensor_name}"
                "GGUF tensor element count is not divisible by quant block size {}"))
      else err (
          invalid_gguf path "{tensor_name}"
            "GGUF tensor row element count is not divisible by quant block size {}")
]

unfoldable pub byte_len_for_shape : Option String → GgmlTensorType → List ℕ → ℕ → Result (Option ℕ)
byte_len_for_shape path t shape element_count = elim (fixed_element_size t) [
  | some size ↦ elim (checked_mul element_count size) [
    | none ↦ err (invalid_gguf path "{tensor_name}" "GGUF tensor byte length overflows u64")
    | some n ↦ ok (some n)
  ]
  | none ↦ elim (quant_layout t) [
    | some layout ↦ quant_byte_len path layout shape element_count
    | none ↦ ok none
  ]
]
