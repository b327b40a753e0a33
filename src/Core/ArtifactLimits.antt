-- ===== src/Core/ArtifactLimits.antt =====
-- crates/core/src/limits.rs: the ceilings for model files and their headers, `ArtifactLimits`.
pub mod Accepts
use ocelotl.Common.{ℕ, ◌*◌, ◌||◌, Option, some, String, ltb, ◌==◌, if◌then◌else◌}
use ocelotl.Core.Errors.{Result, ok, err, ◌>>=◌, ◌>>◌, invalid_request_err, invalid_model_err}

pub record ArtifactLimits : Type 0 where
  pub max_file_bytes : ℕ
  pub max_header_bytes : ℕ
  pub max_metadata_entries : ℕ
  pub max_tensors : ℕ
  pub max_metadata_string_bytes : ℕ
  pub max_key_bytes : ℕ
  pub max_tensor_name_bytes : ℕ
  pub max_array_elements : ℕ
  pub max_array_depth : ℕ
  pub max_tensor_dimensions : ℕ

abbrev pub default_limits : ArtifactLimits
default_limits = record {
  max_file_bytes = 32 * 1024 * 1024 * 1024;
  max_header_bytes = 512 * 1024 * 1024;
  max_metadata_entries = 65_536;
  max_tensors = 131_072;
  max_metadata_string_bytes = 16 * 1024 * 1024;
  max_key_bytes = 65_535;
  max_tensor_name_bytes = 65_535;
  max_array_elements = 1_000_000;
  max_array_depth = 4;
  max_tensor_dimensions = 8;
}

unfoldable pub validate : ArtifactLimits → Result (Unit {0})
validate l =
    if l.max_file_bytes == 0
      || l.max_header_bytes == 0
      || l.max_metadata_entries == 0
      || l.max_tensors == 0
      || l.max_metadata_string_bytes == 0
      || l.max_key_bytes == 0
      || l.max_tensor_name_bytes == 0
      || l.max_array_elements == 0
      || l.max_array_depth == 0
      || l.max_tensor_dimensions == 0
    then err (invalid_request_err "artifact_limits" "all artifact limits must be greater than zero")
    else (if ltb l.max_file_bytes l.max_header_bytes
        then err (
            invalid_request_err "artifact_limits.max_header_bytes"
              "max_header_bytes {} exceeds max_file_bytes {}")
        else (if ltb l.max_metadata_string_bytes l.max_key_bytes
              || ltb l.max_metadata_string_bytes l.max_tensor_name_bytes
            then err (
                invalid_request_err "artifact_limits.max_metadata_string_bytes"
                  "metadata string limit must cover key and tensor-name limits")
            else ok tt))

unfoldable pub validate_file_bytes : ArtifactLimits → Option String → ℕ → Result (Unit {0})
validate_file_bytes l path file_bytes = do
  validate l
  if ltb l.max_file_bytes file_bytes
      then err (
          invalid_model_err path "file_size"
            "artifact file size {file_bytes} exceeds configured limit {}")
      else ok tt

unfoldable pub validate_gguf_counts : ArtifactLimits → Option String → ℕ → ℕ → Result (Unit {0})
validate_gguf_counts l path tensor_count metadata_count = do
  validate l
  if ltb l.max_tensors tensor_count
      then err (
          invalid_model_err path "tensor_count"
            "GGUF tensor_count {tensor_count} exceeds configured limit {}")
      else (if ltb l.max_metadata_entries metadata_count
          then err (
              invalid_model_err path "metadata_kv_count"
                "GGUF metadata_kv_count {metadata_count} exceeds configured limit {}")
          else ok tt)
