-- ===== src/Loader/Gguf/Manifest/Accepted.antt =====
-- What `inspect_gguf_with_limits` promises of a manifest.
use ocelotl.Common.{
  ℕ, ◌%◌, ◌≤◌, ◌<◌, ◌≡◌, refl, ap, subst, Bool, Option, some, List, String, arith, length, All,
}
use ocelotl.Core.Errors.{Result, ok, >>=-eq-ok}
use ocelotl.Core.ArtifactLimits.{ArtifactLimits}
use ocelotl.Core.ArtifactLimits
use ocelotl.Loader.Gguf.Types.{GgufMetadataEntry, GgufTensorEntry, GgufManifest}
use ocelotl.Loader.Gguf.Reader.{GgufReader, lift}
use ocelotl.Loader.Gguf.Reader.Gives.{IsLater, Gives, Any, bind-Gives, lift-Gives, collect-Gives}
use ocelotl.Loader.Gguf.Values.Kept.{reserve-Gives}
use ocelotl.Loader.Gguf.Layout.{alignment_from_metadata, align_offset, place_tensors}
use ocelotl.Loader.Gguf.Layout.Aligned.{alignment_ok, align_offset_ok}
use ocelotl.Loader.Gguf.Layout.Placed.{IsPlacedIn, place_tensors_ok}
use ocelotl.Loader.Gguf.Inspect.{read_magic, read_version, read_counts, read_tensors}
use ocelotl.Loader.Gguf.Manifest.{
  read_data_start, read_data_layout, read_body, read_manifest, opened_reader, manifest_of,
  inspect_gguf_with_limits,
}
use ocelotl.Loader.Gguf.Manifest.Entries.{IsEntry, metadata-Gives}
use ocelotl.Loader.Gguf.Manifest.Ranges.{IsTensor, read_tensor-IsTensor}
use ocelotl.Loader.Gguf.Manifest.Opening.{file_size_ok, counts-Gives, version-Gives, magic-Gives}

-- A manifest of a file of `file_len` bytes.
pub record IsManifest (is_utf8 : List ℕ → Bool) (path : Option String) (limits : ArtifactLimits)
    (file_len : ℕ) (m : GgufManifest) : Type 0 where
  pub version : m.version ≡ 3
  pub few_entries : length m.metadata ≤ limits.max_metadata_entries
  pub entries : All (IsEntry is_utf8 limits) m.metadata
  pub few_tensors : length m.tensors ≤ limits.max_tensors
  pub alignment : (0 < m.alignment) × (m.alignment % 8 ≡ 0)
  pub data_aligned : m.data_start % m.alignment ≡ 0
  pub data_before_limit : m.data_start ≤ limits.max_header_bytes
  pub data_in_file : m.data_start ≤ file_len
  pub length_kept : m.file_len ≡ file_len
  pub tensors :
      All
        (λ t. IsTensor is_utf8 path limits m.alignment t × IsPlacedIn file_len m.data_start t)
        m.tensors

-- The start of the data, and the reader's file.
start-Gives :
    (q : GgufReader) (a : ℕ)
    → 0 < a
    → Gives q
        (λ d. (d % a ≡ 0) × (d ≤ q.limits.max_header_bytes) × (d ≤ q.file_len))
        (read_data_start a)
unfolding read_data_start
start-Gives q a pos =
    bind-Gives q (λ d. d % a ≡ 0) _ (λ r. lift (align_offset r.path r.position a) r) _
      (lift-Gives q _ (λ r. align_offset r.path r.position a)
        (λ r d h e. align_offset_ok r.path r.position a d pos e))
      (λ d whole r s b h e.
        let limit : r.limits.max_header_bytes ≡ q.limits.max_header_bytes =
          ap (λ (l : ArtifactLimits). l.max_header_bytes) h.limits in
        let same : r ≡ s = ground arith in
        let same_start : d ≡ b = ground arith in
        let fits : (d ≤ r.limits.max_header_bytes) × (d ≤ r.file_len) = ground arith in
        (
          (
            subst (λ x. x % a ≡ 0) same_start whole,
            omega (arith, fits, limit, same_start),
            omega (arith, fits, h.file_len, same_start),
          ),
          subst (IsLater q) same h,
        ))

-- From what the parts of a header are known to be.
layout-Gives :
    (is_utf8 : List ℕ → Bool) (q : GgufReader) (version : ℕ) (metadata : List GgufMetadataEntry)
    (a : ℕ) (tensors : List GgufTensorEntry)
    → version ≡ 3
    → length metadata ≤ q.limits.max_metadata_entries
    → All (IsEntry is_utf8 q.limits) metadata
    → (0 < a) × (a % 8 ≡ 0)
    → length tensors ≤ q.limits.max_tensors
    → All (IsTensor is_utf8 q.path q.limits a) tensors
    → Gives q
        (IsManifest is_utf8 q.path q.limits q.file_len)
        (read_data_layout version metadata a tensors)
unfolding read_data_layout
layout-Gives is_utf8 q version metadata a tensors v few_entries entries alignment few_tensors
      all_tensors =
    bind-Gives q _ _ (read_data_start a) _ (start-Gives q a (alignment.0))
      (λ start (data_aligned, before_limit, in_file).
        bind-Gives q
          (λ placed.
            (length placed ≡ length tensors)
            × All (λ t. IsTensor is_utf8 q.path q.limits a t × IsPlacedIn q.file_len start t)
                placed)
          (IsManifest is_utf8 q.path q.limits q.file_len)
          (λ r. lift (place_tensors r.path r.file_len start tensors) r) _
          (lift-Gives q _ (λ r. place_tensors r.path r.file_len start tensors)
            (λ r placed h e.
              place_tensors_ok (IsTensor is_utf8 q.path q.limits a) q.path q.file_len start tensors
                placed
                (λ t n p. record {
                  name = p.name;
                  some_dims = p.some_dims;
                  few_dims = p.few_dims;
                  positive = p.positive;
                  aligned = p.aligned;
                  bytes = p.bytes;
                })
                all_tensors (rw (h.path, h.file_len) at e)))
          (λ placed (same, places) r s m h e.
            let still : r ≡ s = cc in
            let shown : record {
              version = version;
              metadata = metadata;
              tensors = placed;
              alignment = a;
              data_start = start;
              file_len = r.file_len;
            }
                ≡ m =
              cc in
            (
              subst (IsManifest is_utf8 q.path q.limits q.file_len) shown (record {
                version = v;
                few_entries = few_entries;
                entries = entries;
                few_tensors = omega (arith, same);
                alignment = alignment;
                data_aligned = data_aligned;
                data_before_limit = before_limit;
                data_in_file = in_file;
                length_kept = h.file_len;
                tensors = places;
              }),
              subst (IsLater q) still h,
            )))

module _ (is_utf8 : List ℕ → Bool) (can_reserve : String → ℕ → Bool) where
  tensors-Gives :
      (q : GgufReader) (a t : ℕ)
      → Gives q
          (λ tensors. (length tensors ≡ t) × All (IsTensor is_utf8 q.path q.limits a) tensors)
          (read_tensors is_utf8 can_reserve a t)
  unfolding read_tensors
  tensors-Gives q a t =
      bind-Gives q Any _ _ _ (reserve-Gives is_utf8 can_reserve q "tensor_count" t)
        (λ _ _. collect-Gives q _ t _ (read_tensor-IsTensor is_utf8 can_reserve q a))

  body-Gives :
      (q : GgufReader) (version t m : ℕ)
      → version ≡ 3
      → (t ≤ q.limits.max_tensors) × (m ≤ q.limits.max_metadata_entries)
      → Gives q
          (IsManifest is_utf8 q.path q.limits q.file_len)
          (read_body is_utf8 can_reserve version t m)
  unfolding read_body
  body-Gives q version t m v few =
      bind-Gives q _ _ _ _ (metadata-Gives is_utf8 can_reserve q m) (λ metadata (size, entries).
        bind-Gives q (λ a. (0 < a) × (a % 8 ≡ 0)) _
          (λ r. lift (alignment_from_metadata r.path metadata) r) _
          (lift-Gives q _ (λ r. alignment_from_metadata r.path metadata)
            (λ r a h e. alignment_ok r.path metadata a e))
          (λ a alignment. bind-Gives q _ _ _ _ (tensors-Gives q a t) (λ tensors (same, described).
            layout-Gives is_utf8 q version metadata a tensors v (omega (arith, size, few.1)) entries
              alignment (omega (arith, same, few.0)) described)))

  read_manifest-Gives :
      (q : GgufReader)
      → Gives q (IsManifest is_utf8 q.path q.limits q.file_len) (read_manifest is_utf8 can_reserve)
  unfolding read_manifest
  read_manifest-Gives q = bind-Gives q Any _ read_magic _ (magic-Gives q) (λ _ _.
      bind-Gives q _ _ read_version _ (version-Gives q) (λ version v.
        bind-Gives q _ _ read_counts _ (counts-Gives q)
          (λ counts few. body-Gives q version (counts.0) (counts.1) v few)))

  -- An accepted file was opened, it is not longer than its limit, and of its manifest this holds. The
  -- version is 3. There are as many entries and tensors as allowed at most. Each key, each text that is
  -- a value and each name of a tensor is UTF-8, and as long as the limit for it and the limit on texts
  -- allow; and an array that is a value is as long as allowed, where arrays are allowed at all. The
  -- alignment is a positive multiple of 8, and the data section starts at a multiple of it, before the
  -- header limit and not behind the end of the file. Each tensor has as many dimensions as allowed,
  -- at least one and none of them 0, an offset that is a multiple of the alignment, the byte length
  -- that its type and shape have, where that is known, and a start that is the data section's and the
  -- offset, and not behind the end of the file; and where its byte length is known, its bytes end in
  -- the file as well.
  pub inspect_accepts-IsManifest :
      (path : String) (opened : Result (List ℕ)) (limits : ArtifactLimits) (m : GgufManifest)
      → inspect_gguf_with_limits is_utf8 can_reserve path opened limits ≡ ok m
      → (bytes : List ℕ) × (opened ≡ ok bytes)
        × (length bytes ≤ limits.max_file_bytes)
        × IsManifest is_utf8 (some path) limits (length bytes) m
  unfolding inspect_gguf_with_limits
  inspect_accepts-IsManifest path opened limits m h =
      let (_, _, h1) = >>=-eq-ok (ArtifactLimits.validate limits) _ h in
      let (bytes, there, h2) = >>=-eq-ok opened _ h1 in
      let (_, size, h3) =
        >>=-eq-ok (ArtifactLimits.validate_file_bytes limits (some path) (length bytes)) _ h2 in
      let q : GgufReader = opened_reader path bytes limits in
      let ((m', s), run, h4) = >>=-eq-ok (read_manifest is_utf8 can_reserve q) manifest_of h3 in
      let later : IsLater q q = record {
        limits = refl;
        path = refl;
        file_len = refl;
        placed = record { whole = omega arith; before_limit = omega arith; in_range = omega arith };
      } in
      let (good, _) = read_manifest-Gives q q s m' later run in
      let same : m' ≡ m = cc in
      (
        bytes,
        there,
        file_size_ok limits (some path) (length bytes) size,
        subst (IsManifest is_utf8 (some path) limits (length bytes)) same good,
      )
