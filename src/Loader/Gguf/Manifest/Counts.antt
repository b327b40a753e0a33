-- ===== src/Loader/Gguf/Manifest/Counts.antt =====
-- How many bytes the entries and the tensors of a header take, beside the numbers of them that it
-- declares.
use ocelotl.Common.{
  ℕ, zero, suc, ◌+◌, ◌*◌, ◌≤◌, ◌<◌, ◌≡◌, ◌∙◌, Bool, ◌||◌, List, String, ltb, ◌==◌, arith,
}
use ocelotl.Core.Errors.{ok, err}
use ocelotl.Core.Words.{checked_add, checked_mul}
use ocelotl.Loader.Gguf.Types.{
  invalid_gguf, GgufManifest, GgufMetadataEntry, GgufTensorEntry, GgmlTensorType, type_from_raw,
  tensor_type_from_raw,
}
use ocelotl.Loader.Gguf.Reader.{GgufReader, ◌>>◌, lift, read_le, remaining_bounded_header_bytes}
use ocelotl.Loader.Gguf.Reader.Moves.{IsPlaced, Takes, bind_ok}
use ocelotl.Loader.Gguf.Values.{try_reserve_exact}
use ocelotl.Loader.Gguf.Values.Least.{reserve-Stays, string-Takes, value-Takes}
use ocelotl.Loader.Gguf.Reader.Takes.{
  Stays, bind-Takes, after-Takes, before-Takes, weaker-Takes, le-Takes, lift-Stays, guarded-Takes,
  collect-Takes, Stays-Takes,
}
use ocelotl.Loader.Gguf.Layout.{place_tensors, align_offset, alignment_from_metadata}
use ocelotl.Loader.Gguf.Inspect.{
  validate_declared_counts_fit_remaining, read_entry, dim_product, read_dims, read_shape,
  describe_tensor, read_tensor, read_metadata, read_tensors,
}
use ocelotl.Loader.Gguf.Manifest.{read_data_start, read_data_layout, read_body}

pub product-Stays : (c dim : ℕ) → Stays (dim_product c dim)
unfolding dim_product
product-Stays c dim r s a h = ground arith

pub describe-Stays :
    (alignment : ℕ) (name : List ℕ) (shape : List ℕ × ℕ) (t : GgmlTensorType) (offset : ℕ)
    → Stays (describe_tensor alignment name shape t offset)
unfolding describe_tensor
describe-Stays alignment name shape t offset r s a h = ground arith

start-Stays : (alignment : ℕ) → Stays (read_data_start alignment)
unfolding read_data_start
start-Stays alignment r s a h =
    let (b, t, first, rest) =
      bind_ok (λ r. lift (align_offset r.path r.position alignment) r) _ r s h in
    let same : t ≡ r = lift-Stays (align_offset r.path r.position alignment) r t b first in
    let still : s ≡ t = ground arith in still ∙ same

layout-Stays :
    (version : ℕ) (metadata : List GgufMetadataEntry) (alignment : ℕ)
    (tensors : List GgufTensorEntry)
    → Stays (read_data_layout version metadata alignment tensors)
unfolding read_data_layout
layout-Stays version metadata alignment tensors r s a h =
    let (start, t, first, rest) = bind_ok (read_data_start alignment) _ r s h in
    let (placed, u, next, last) =
      bind_ok (λ r. lift (place_tensors r.path r.file_len start tensors) r) _ t s rest in
    let same : u ≡ t = lift-Stays (place_tensors t.path t.file_len start tensors) t u placed next in
    let still : s ≡ u = cc in still ∙ same ∙ start-Stays alignment r t start first

module _ (is_utf8 : List ℕ → Bool) (can_reserve : String → ℕ → Bool) where
  pub entry-Takes : Takes 13 (read_entry is_utf8 can_reserve)
  unfolding read_entry
  entry-Takes =
      bind-Takes 8 5 _ _
        (λ r s a v h.
          string-Takes is_utf8 can_reserve "metadata key" r.limits.max_key_bytes r s a v h)
        (λ key. bind-Takes 4 1 (read_le 4) _ (le-Takes 4) (λ raw.
          before-Takes 1 (λ r. lift (type_from_raw r.path "{key}" raw) r) _
            (λ r s a h. lift-Stays (type_from_raw r.path "{key}" raw) r s a h)
            (λ t.
              after-Takes 1 _ _
                (λ r s a v h. value-Takes is_utf8 can_reserve r.limits.max_array_depth t r s a v h)
                (λ v r s a h. cc))))

  dims-Takes : (n c : ℕ) → Takes (n * 8) (read_dims is_utf8 can_reserve n c)
  unfolding read_dims
  dims-Takes zero c = weaker-Takes (0 * 8) 0 _ (omega arith) (Stays-Takes _ (λ r s a h. cc))
  dims-Takes (suc n) c = weaker-Takes (suc n * 8) (8 + n * 8) _ (omega arith) (
      bind-Takes 8 (n * 8) (read_le 8) _ (le-Takes 8) (λ dim.
        before-Takes (n * 8) (dim_product c dim) _ (product-Stays c dim)
          (λ p. after-Takes (n * 8) _ _ (dims-Takes n p) (λ d r s a h. cc))))

  -- There is a dimension at least.
  some_dims-Takes : (n : ℕ) → 0 < n → Takes 8 (read_dims is_utf8 can_reserve n 1)
  some_dims-Takes n h =
      let e : 8 ≤ n * 8 = omega arith in weaker-Takes 8 (n * 8) _ e (dims-Takes n 1)

  shape-Takes : Takes 12 (read_shape is_utf8 can_reserve)
  unfolding read_shape
  shape-Takes = bind-Takes 4 8 (read_le 4) _ (le-Takes 4) (λ n r s a v h.
      let some_dims : 0 < n = ground arith in
      guarded-Takes 8 (λ r. n == 0 || ltb r.limits.max_tensor_dimensions n)
        (λ r. err (
          invalid_gguf r.path "{name}"
            "GGUF tensor `{name}` has unsupported dimension count {n_dims}"))
        (try_reserve_exact is_utf8 can_reserve "{name}" n >> read_dims is_utf8 can_reserve n 1)
        (λ r s a h. cc)
        (before-Takes 8 (try_reserve_exact is_utf8 can_reserve "{name}" n) _
          (reserve-Stays is_utf8 can_reserve "{name}" n) (λ _. some_dims-Takes n some_dims))
        r s a v h)

  tensor-Takes : (alignment : ℕ) → Takes 32 (read_tensor is_utf8 can_reserve alignment)
  unfolding read_tensor
  tensor-Takes alignment =
      bind-Takes 8 24 _ _
        (λ r s a v h.
          string-Takes is_utf8 can_reserve "tensor name" r.limits.max_tensor_name_bytes r s a v h)
        (λ name. bind-Takes 12 12 _ _ shape-Takes (λ shape.
          bind-Takes 4 8 (read_le 4) _ (le-Takes 4) (λ raw.
            after-Takes 8 (read_le 8) _ (le-Takes 8) (λ offset r s a h.
              describe-Stays alignment name shape (tensor_type_from_raw raw) offset r s a h))))

  metadata-Takes : (m : ℕ) → Takes (m * 13) (read_metadata is_utf8 can_reserve m)
  unfolding read_metadata
  metadata-Takes m =
      before-Takes (m * 13) _ _ (reserve-Stays is_utf8 can_reserve "metadata_kv_count" m)
        (λ _. collect-Takes m 13 _ entry-Takes)

  tensors-Takes : (alignment t : ℕ) → Takes (t * 32) (read_tensors is_utf8 can_reserve alignment t)
  unfolding read_tensors
  tensors-Takes alignment t =
      before-Takes (t * 32) _ _ (reserve-Stays is_utf8 can_reserve "tensor_count" t)
        (λ _. collect-Takes t 32 _ (tensor-Takes alignment))

  body-Takes :
      (version t m : ℕ) → Takes (m * 13 + t * 32) (read_body is_utf8 can_reserve version t m)
  unfolding read_body
  body-Takes version t m = bind-Takes (m * 13) (t * 32) _ _ (metadata-Takes m) (λ metadata.
      before-Takes (t * 32) (λ r. lift (alignment_from_metadata r.path metadata) r) _
        (λ r s a h. lift-Stays (alignment_from_metadata r.path metadata) r s a h)
        (λ alignment.
          after-Takes (t * 32) _ _ (tensors-Takes alignment t)
            (layout-Stays version metadata alignment)))

  -- The check of the declared counts refuses no file that can be read: where what follows the counts
  -- is read from the cursor without an error, for any numbers of tensors and of metadata entries, the
  -- check of these numbers accepts them.
  pub declared_counts_lossless :
      (version tensor_count metadata_count : ℕ) (r s : GgufReader) (manifest : GgufManifest)
      → IsPlaced r
      → read_body is_utf8 can_reserve version tensor_count metadata_count r ≡ ok (manifest, s)
      → validate_declared_counts_fit_remaining r tensor_count metadata_count ≡ ok tt
  unfolding validate_declared_counts_fit_remaining checked_mul checked_add
      remaining_bounded_header_bytes
  declared_counts_lossless version t m r s manifest p h =
      let (n, enough, moved) = body-Takes version t m r s manifest p h in
      ground (arith, enough, moved.inside, moved.before_limit, moved.in_range, p.whole)
