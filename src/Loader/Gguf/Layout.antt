-- ===== src/Loader/Gguf/Layout.antt =====
-- crates/loader/src/gguf_inspect.rs: where the tensors lie, from the metadata and the length of the
-- file.
pub mod Aligned
pub mod Placed
use ocelotl.Common.{
  ℕ, ◌+◌, ◌-◌, ◌*◌, ◌%◌, Bool, true, false, not, ◌||◌, Option, none, some, List, [], ◌∷◌, String,
  ltb, ◌==◌, if◌then◌else◌,
}
use ocelotl.Core.Errors.{Result, ok, err, panic, ◌>>=◌, ok_or}
use ocelotl.Core.Words.{checked_add}
use ocelotl.Loader.Gguf.Types.{
  codes, same_text, invalid_gguf, GgufMetadataValue, GgufMetadataEntry, GgufTensorEntry,
}

-- `self.metadata.iter().find(..).map(..)`.
unfoldable pub metadata_value : List GgufMetadataEntry → List ℕ → Option GgufMetadataValue
metadata_value [] key = none
metadata_value (entry ∷ rest) key =
    if same_text entry.key key then some entry.value else metadata_value rest key

abbrev pub default_alignment : ℕ
default_alignment = 32

unfoldable pub alignment_value : Option String → Option GgufMetadataValue → Result ℕ
alignment_value path none = ok default_alignment
alignment_value path (some (GgufMetadataValue.u32 value)) = ok value
alignment_value path (some (GgufMetadataValue.u64 value)) = ok value
alignment_value path (some other) = err (
    invalid_gguf path "general.alignment"
      "GGUF general.alignment must be uint32 or uint64, got {other:?}")

unfoldable pub check_alignment : Option String → ℕ → Result ℕ
check_alignment path alignment =
    if alignment == 0 || not (alignment % 8 == 0)
    then err (
        invalid_gguf path "general.alignment"
          "GGUF alignment must be a positive multiple of 8, got {alignment}")
    else ok alignment

unfoldable pub alignment_from_metadata : Option String → List GgufMetadataEntry → Result ℕ
alignment_from_metadata path metadata =
    alignment_value path (metadata_value metadata (codes "general.alignment"))
    >>= check_alignment path

-- The remainder by 0 panics.
unfoldable pub align_offset : Option String → ℕ → ℕ → Result ℕ
align_offset path offset alignment =
    if alignment == 0
    then panic
    else (if offset % alignment == 0
        then ok offset
        else ok_or (checked_add offset (alignment - offset % alignment))
            (invalid_gguf path "alignment" "GGUF aligned offset overflows u64"))

-- Whether the bytes of a tensor, where their number is known, end in the file.
unfoldable pub check_end : Option String → ℕ → ℕ → Option ℕ → Result (Unit {0})
check_end path file_len file_offset none = ok tt
check_end path file_len file_offset (some byte_len) = do
  tensor_end ←
      ok_or (checked_add file_offset byte_len)
        (invalid_gguf path "{tensor.name}" "GGUF tensor `{}` end offset overflows u64")
  if ltb file_len tensor_end
      then err (
          invalid_gguf path "{tensor.name}"
            "GGUF tensor `{}` byte range {file_offset}..{tensor_end} exceeds file length {file_len}")
      else ok tt

unfoldable pub place_tensor : Option String → ℕ → ℕ → GgufTensorEntry → Result GgufTensorEntry
place_tensor path file_len data_start tensor = do
  file_offset ←
      ok_or (checked_add data_start tensor.offset)
        (invalid_gguf path "{tensor.name}" "GGUF tensor `{}` file offset overflows u64")
  if ltb file_len file_offset
      then err (
          invalid_gguf path "{tensor.name}"
            "GGUF tensor `{}` starts at file offset {file_offset}, beyond file length {file_len}")
      else (check_end path file_len file_offset tensor.byte_len >>= λ _.
          ok (record tensor { file_offset = file_offset }))

unfoldable pub place_tensors :
    Option String → ℕ → ℕ → List GgufTensorEntry → Result (List GgufTensorEntry)
place_tensors path file_len data_start [] = ok []
place_tensors path file_len data_start (tensor ∷ rest) = do
  placed ← place_tensor path file_len data_start tensor
  others ← place_tensors path file_len data_start rest
  ok (placed ∷ others)
