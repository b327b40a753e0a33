-- ===== src/Loader/Gguf/Inspect.antt =====
-- crates/loader/src/gguf_inspect.rs, `inspect_gguf_with_limits`: the header of a GGUF file, read from
-- its bytes. A `u64` is a `usize` here, so no conversion between them fails.
use ocelotl.Common.{
  ℕ, zero, suc, ◌+◌, ◌%◌, Bool, not, ◌||◌, none, some, List, [], ◌∷◌, String, ltb, ◌==◌,
  if◌then◌else◌,
}
use ocelotl.Core.Errors.{Result, ok, err, OcelotlError}
use ocelotl.Core.Words.{checked_add, checked_mul}
use ocelotl.Core.ArtifactLimits.{ArtifactLimits}
use ocelotl.Core.ArtifactLimits
use ocelotl.Loader.Gguf.Types.{
  codes, same_text, invalid_gguf, GgufMetadataEntry, GgmlTensorType, GgufTensorEntry, type_from_raw,
  tensor_type_from_raw, byte_len_for_shape,
}
use ocelotl.Loader.Gguf.Reader.{
  GgufReader, Reading, ◌>>=◌, ◌>>◌, done, failed, lift, read_exact_header_part, read_u32, read_u64,
  collect, remaining_bounded_header_bytes,
}
use ocelotl.Loader.Gguf.Values.{try_reserve_exact, read_string, read_metadata_value}

abbrev pub min_metadata_entry_bytes : ℕ
min_metadata_entry_bytes = 8 + 4 + 1

abbrev pub min_tensor_descriptor_bytes : ℕ
min_tensor_descriptor_bytes = 8 + 4 + 8 + 4 + 8

unfoldable pub validate_declared_counts_fit_remaining : GgufReader → ℕ → ℕ → Result (Unit {0})
validate_declared_counts_fit_remaining r tensor_count metadata_count =
    elim (checked_mul metadata_count min_metadata_entry_bytes) [
      | none ↦ err (
          invalid_gguf r.path "header_counts" "GGUF minimum metadata descriptor bytes overflow u64")
      | some metadata_bytes ↦ elim (checked_mul tensor_count min_tensor_descriptor_bytes) [
        | none ↦ err (
            invalid_gguf r.path "header_counts" "GGUF minimum tensor descriptor bytes overflow u64")
        | some tensor_bytes ↦ elim (checked_add metadata_bytes tensor_bytes) [
          | none ↦
              err (invalid_gguf r.path "header_counts" "GGUF minimum descriptor bytes overflow u64")
          | some minimum_bytes ↦
              if ltb (remaining_bounded_header_bytes r) minimum_bytes
              then err (
                  invalid_gguf r.path "header_counts"
                    "GGUF declared counts require at least {minimum_bytes} minimum descriptor bytes; remaining bounded header bytes: {remaining}")
              else ok tt
        ]
      ]
    ]

-- The magic bytes and the version.
unfoldable pub read_magic : Reading (Unit {0})
read_magic = do
  magic ← read_exact_header_part 4
  if same_text magic (codes "GGUF")
      then done tt
      else failed "magic" "invalid GGUF magic bytes: {magic:?}"

unfoldable pub read_version : Reading ℕ
read_version = do
  version ← read_u32
  if version == 3 then done version else λ r. err (
      OcelotlError.unsupported
        (record { feature = "gguf_version"; requested = some "{version}"; supported = "3" ∷ [] }))

-- The numbers of tensors and of metadata entries.
unfoldable pub read_counts : Reading (ℕ × ℕ)
read_counts = do
  tensor_count ← read_u64
  metadata_count ← read_u64
  (λ r. lift (ArtifactLimits.validate_gguf_counts r.limits r.path tensor_count metadata_count) r)
  (λ r. lift (validate_declared_counts_fit_remaining r tensor_count metadata_count) r)
  done (tensor_count, metadata_count)

-- The number of elements with one more dimension.
unfoldable pub dim_product : ℕ → ℕ → Reading ℕ
dim_product element_count dim =
    if dim == 0
    then failed "{name}" "GGUF tensor `{name}` has a zero dimension"
    else elim (checked_mul element_count dim) [
      | none ↦ failed "{name}" "GGUF tensor `{name}` element count overflows u64"
      | some product ↦ done product
    ]

-- What is checked of a tensor once it is read, and its entry.
unfoldable pub describe_tensor :
    ℕ → List ℕ → List ℕ × ℕ → GgmlTensorType → ℕ → Reading GgufTensorEntry
describe_tensor alignment name shape tensor_type offset =
    if not (offset % alignment == 0)
    then failed "{name}" "GGUF tensor `{name}` offset {offset} is not aligned to {alignment} bytes"
    else ((λ r. lift (byte_len_for_shape r.path tensor_type (shape.0) (shape.1)) r) >>= λ byte_len.
        done (record {
          name = name;
          shape = shape.0;
          tensor_type = tensor_type;
          offset = offset;
          file_offset = 0;
          byte_len = byte_len;
        }))

module _ (is_utf8 : List ℕ → Bool) (can_reserve : String → ℕ → Bool) where
  unfoldable pub read_entry : Reading GgufMetadataEntry
  read_entry = do
    key ← λ r. read_string is_utf8 can_reserve "metadata key" r.limits.max_key_bytes r
    raw_type ← read_u32
    value_type ← λ r. lift (type_from_raw r.path "{key}" raw_type) r
    value ← λ r. read_metadata_value is_utf8 can_reserve r.limits.max_array_depth value_type r
    done (record { key = key; value = value })

  -- The dimensions, and the product of the first ones and theirs.
  unfoldable pub read_dims : ℕ → ℕ → Reading (List ℕ × ℕ)
  read_dims zero element_count = done ([], element_count)
  read_dims (suc n_dims) element_count = do
    dim ← read_u64
    product ← dim_product element_count dim
    rest ← read_dims n_dims product
    done (dim ∷ rest.0, rest.1)

  unfoldable pub read_shape : Reading (List ℕ × ℕ)
  read_shape = do
    n_dims ← read_u32
    λ r.
        if n_dims == 0 || ltb r.limits.max_tensor_dimensions n_dims
        then err (
            invalid_gguf r.path "{name}"
              "GGUF tensor `{name}` has unsupported dimension count {n_dims}")
        else (try_reserve_exact is_utf8 can_reserve "{name}" n_dims >> read_dims n_dims 1) r

  unfoldable pub read_tensor : ℕ → Reading GgufTensorEntry
  read_tensor alignment = do
    name ← λ r. read_string is_utf8 can_reserve "tensor name" r.limits.max_tensor_name_bytes r
    shape ← read_shape
    raw_type ← read_u32
    offset ← read_u64
    describe_tensor alignment name shape (tensor_type_from_raw raw_type) offset

  unfoldable pub read_metadata : ℕ → Reading (List GgufMetadataEntry)
  read_metadata metadata_count =
      try_reserve_exact is_utf8 can_reserve "metadata_kv_count" metadata_count
      >> collect metadata_count read_entry

  unfoldable pub read_tensors : ℕ → ℕ → Reading (List GgufTensorEntry)
  read_tensors alignment tensor_count =
      try_reserve_exact is_utf8 can_reserve "tensor_count" tensor_count
      >> collect tensor_count (read_tensor alignment)
