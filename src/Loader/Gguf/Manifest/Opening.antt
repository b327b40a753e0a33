-- ===== src/Loader/Gguf/Manifest/Opening.antt =====
-- What the start of a header gives: the magic bytes, the version and the counts.
use ocelotl.Common.{ℕ, ◌≤◌, ◌≡◌, Option, String, arith}
use ocelotl.Core.Errors.{ok, >>=-eq-ok}
use ocelotl.Core.ArtifactLimits.{ArtifactLimits}
use ocelotl.Core.ArtifactLimits
use ocelotl.Loader.Gguf.Reader.{GgufReader, lift, read_le, read_exact_header_part}
use ocelotl.Loader.Gguf.Reader.Gives.{Gives, Any, Takes-Gives, bind-Gives, done-Gives, lift-Gives}
use ocelotl.Loader.Gguf.Reader.Takes.{Stays-Takes, le-Takes, bytes-Takes}
use ocelotl.Loader.Gguf.Inspect.{
  read_magic, read_version, read_counts, validate_declared_counts_fit_remaining,
}

pub counts_ok :
    (l : ArtifactLimits) (path : Option String) (t m : ℕ)
    → ArtifactLimits.validate_gguf_counts l path t m ≡ ok tt
    → (t ≤ l.max_tensors) × (m ≤ l.max_metadata_entries)
unfolding ArtifactLimits.validate_gguf_counts
counts_ok l path t m h =
    let (_, _, rest) = >>=-eq-ok (ArtifactLimits.validate l) _ h in (ground arith, ground arith)

pub file_size_ok :
    (l : ArtifactLimits) (path : Option String) (n : ℕ)
    → ArtifactLimits.validate_file_bytes l path n ≡ ok tt
    → n ≤ l.max_file_bytes
unfolding ArtifactLimits.validate_file_bytes
file_size_ok l path n h =
    let (_, _, rest) = >>=-eq-ok (ArtifactLimits.validate l) _ h in ground arith

pub counts-Gives :
    (q : GgufReader)
    → Gives q
        (λ c. (c.0 ≤ q.limits.max_tensors) × (c.1 ≤ q.limits.max_metadata_entries))
        read_counts
unfolding read_counts
counts-Gives q =
    bind-Gives q Any _ (read_le 8) _ (Takes-Gives q _ 8 _ (le-Takes 8) (λ r s a h e. tt)) (λ t _.
      bind-Gives q Any _ (read_le 8) _ (Takes-Gives q _ 8 _ (le-Takes 8) (λ r s a h e. tt)) (λ m _.
        bind-Gives q (λ _. (t ≤ q.limits.max_tensors) × (m ≤ q.limits.max_metadata_entries)) _
          (λ r. lift (ArtifactLimits.validate_gguf_counts r.limits r.path t m) r) _
          (lift-Gives q _ (λ r. ArtifactLimits.validate_gguf_counts r.limits r.path t m)
            (λ r a h e. counts_ok q.limits r.path t m (rw h.limits at e)))
          (λ _ few.
            bind-Gives q Any _ (λ r. lift (validate_declared_counts_fit_remaining r t m) r) _
              (lift-Gives q _ (λ r. validate_declared_counts_fit_remaining r t m) (λ r a h e. tt))
              (λ _ _. done-Gives q _ (t, m) few))))

pub version-Gives : (q : GgufReader) → Gives q (λ v. v ≡ 3) read_version
unfolding read_version
version-Gives q =
    bind-Gives q Any _ (read_le 4) _ (Takes-Gives q _ 4 _ (le-Takes 4) (λ r s a h e. tt)) (λ v _.
      Takes-Gives q _ 0 _ (Stays-Takes _ (λ r s a h. ground arith)) (λ r s a h e. ground arith))

pub magic-Gives : (q : GgufReader) → Gives q Any read_magic
unfolding read_magic
magic-Gives q =
    bind-Gives q Any Any (read_exact_header_part 4) _
      (Takes-Gives q _ 4 _ (bytes-Takes 4) (λ r s a h e. tt))
      (λ b _. Takes-Gives q _ 0 _ (Stays-Takes _ (λ r s a h. ground arith)) (λ r s a h e. tt))
