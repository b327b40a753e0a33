-- ===== src/Core/ArtifactLimits/Accepts.antt =====
-- crates/core/src/limits.rs, `ArtifactLimits`: the model files and headers that are let through.
use ocelotl.Common.{ℕ, ◌≤◌, ◌<◌, ◌≡◌, ◌↔◌, Option, String, arith}
use ocelotl.Core.Errors.{ok}
use ocelotl.Core.ArtifactLimits.{
  ArtifactLimits, validate, validate_file_bytes, validate_gguf_counts,
}

-- A policy with positive ceilings, whose header fits in the file and whose keys fit in the strings.
pub record IsCoherent (l : ArtifactLimits) : Type 0 where
  pub file_pos : 0 < l.max_file_bytes
  pub header_pos : 0 < l.max_header_bytes
  pub entries_pos : 0 < l.max_metadata_entries
  pub tensors_pos : 0 < l.max_tensors
  pub strings_pos : 0 < l.max_metadata_string_bytes
  pub keys_pos : 0 < l.max_key_bytes
  pub names_pos : 0 < l.max_tensor_name_bytes
  pub elements_pos : 0 < l.max_array_elements
  pub depth_pos : 0 < l.max_array_depth
  pub dimensions_pos : 0 < l.max_tensor_dimensions
  pub header_fits : l.max_header_bytes ≤ l.max_file_bytes
  pub keys_fit : l.max_key_bytes ≤ l.max_metadata_string_bytes
  pub names_fit : l.max_tensor_name_bytes ≤ l.max_metadata_string_bytes

validate→IsCoherent : (l : ArtifactLimits) → validate l ≡ ok tt → IsCoherent l
unfolding validate
validate→IsCoherent l h = ground arith

IsCoherent→validate : (l : ArtifactLimits) → IsCoherent l → validate l ≡ ok tt
unfolding validate
IsCoherent→validate l c = ground arith

-- The counts in the header of a GGUF file are accepted exactly when the policy is coherent and
-- both lie within their ceilings, whatever the path.
pub validate_gguf_counts_iff :
    (l : ArtifactLimits) (path : Option String) (tensors entries : ℕ)
    → (validate_gguf_counts l path tensors entries ≡ ok tt)
      ↔ (IsCoherent l × (tensors ≤ l.max_tensors) × (entries ≤ l.max_metadata_entries))
unfolding validate_gguf_counts
validate_gguf_counts_iff l path tensors entries = (
  λ h. (validate→IsCoherent l (ground arith), ground arith, ground arith),
  λ c. ground (arith, IsCoherent→validate l c.0),
)

-- The size of a model file is accepted exactly when the policy is coherent and the size lies within
-- its ceiling, whatever the path.
pub validate_file_bytes_iff :
    (l : ArtifactLimits) (path : Option String) (bytes : ℕ)
    → (validate_file_bytes l path bytes ≡ ok tt) ↔ (IsCoherent l × (bytes ≤ l.max_file_bytes))
unfolding validate_file_bytes
validate_file_bytes_iff l path bytes = (
  λ h. (validate→IsCoherent l (ground arith), ground arith),
  λ c. ground (arith, IsCoherent→validate l c.0),
)
