-- ===== src/Loader/Gguf/Manifest.antt =====
-- crates/loader/src/gguf_inspect.rs, `inspect_gguf_with_limits`: the whole inspection of a GGUF file.
-- Opening the file and asking for its length is a parameter: its bytes, or the error.
pub mod Counts
pub mod Opening
pub mod Ranges
pub mod Entries
pub mod Accepted
use ocelotl.Common.{ℕ, ◌*◌, Bool, Option, some, List, [], ◌∷◌, String, ltb, if◌then◌else◌, length}
use ocelotl.Core.Errors
use ocelotl.Core.Errors.{Result, ok, err, panic}
use ocelotl.Core.ArtifactLimits.{ArtifactLimits}
use ocelotl.Core.ArtifactLimits
use ocelotl.Loader.Gguf.Types.{invalid_gguf, GgufMetadataEntry, GgufTensorEntry, GgufManifest}
use ocelotl.Loader.Gguf.Reader.{GgufReader, Reading, ◌>>=◌, ◌>>◌, done, failed, lift}
use ocelotl.Loader.Gguf.Layout.{alignment_from_metadata, align_offset, place_tensors}
use ocelotl.Loader.Gguf.Inspect.{read_magic, read_version, read_counts, read_metadata, read_tensors}

-- The start of the data behind a header that ends at the cursor.
unfoldable pub read_data_start : ℕ → Reading ℕ
read_data_start alignment = do
  data_start ← λ r. lift (align_offset r.path r.position alignment) r
  λ r.
      if ltb r.limits.max_header_bytes data_start
      then err (
          invalid_gguf r.path "header"
            "GGUF tensor data section starts at {data_start}, beyond configured header limit {}")
      else (if ltb r.file_len data_start
          then err (
              invalid_gguf r.path "tensor_data"
                "GGUF tensor data section starts at {data_start}, beyond file length {file_len}")
          else ok (data_start, r))

-- The tensors with the places of their bytes.
unfoldable pub read_data_layout :
    ℕ → List GgufMetadataEntry → ℕ → List GgufTensorEntry → Reading GgufManifest
read_data_layout version metadata alignment tensors = do
  data_start ← read_data_start alignment
  placed ← λ r. lift (place_tensors r.path r.file_len data_start tensors) r
  λ r. ok (
    record {
      version = version;
      metadata = metadata;
      tensors = placed;
      alignment = alignment;
      data_start = data_start;
      file_len = r.file_len;
    },
    r,
  )

module _ (is_utf8 : List ℕ → Bool) (can_reserve : String → ℕ → Bool) where
  -- What follows the counts.
  unfoldable pub read_body : ℕ → ℕ → ℕ → Reading GgufManifest
  read_body version tensor_count metadata_count = do
    metadata ← read_metadata is_utf8 can_reserve metadata_count
    alignment ← λ r. lift (alignment_from_metadata r.path metadata) r
    tensors ← read_tensors is_utf8 can_reserve alignment tensor_count
    read_data_layout version metadata alignment tensors

  unfoldable pub read_manifest : Reading GgufManifest
  read_manifest = do
    read_magic
    version ← read_version
    counts ← read_counts
    read_body version (counts.0) (counts.1)

-- `GgufReader { file, path, file_len, position: 0, limits }`.
abbrev pub opened_reader : String → List ℕ → ArtifactLimits → GgufReader
opened_reader path bytes limits = record {
  file = bytes;
  path = some path;
  file_len = length bytes;
  position = 0;
  limits = limits;
}

abbrev pub manifest_of : {A : Type 0} → A × GgufReader → Result A
manifest_of (manifest, r) = ok manifest

module _ (is_utf8 : List ℕ → Bool) (can_reserve : String → ℕ → Bool) where
  unfoldable pub inspect_gguf_with_limits :
      String → Result (List ℕ) → ArtifactLimits → Result GgufManifest
  inspect_gguf_with_limits path opened limits = Errors.◌>>◌ (ArtifactLimits.validate limits) (
      Errors.◌>>=◌ opened λ bytes.
        Errors.◌>>◌ (ArtifactLimits.validate_file_bytes limits (some path) (length bytes)) (
          Errors.◌>>=◌ (read_manifest is_utf8 can_reserve (opened_reader path bytes limits))
            manifest_of))
