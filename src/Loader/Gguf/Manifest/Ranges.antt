-- ===== src/Loader/Gguf/Manifest/Ranges.antt =====
-- What an accepted manifest says of the file: the alignment, the data section and the tensors in it.
use ocelotl.Common.{
  ℕ, zero, suc, ◌*◌, ◌%◌, ◌≤◌, ◌<◌, ◌≡◌, refl, ap, ◌∙◌, Bool, Option, List, [], ◌∷◌, String, arith,
  length, All,
}
use ocelotl.Core.Errors.{ok}
use ocelotl.Core.Words.{checked_mul, product}
use ocelotl.Core.ArtifactLimits.{ArtifactLimits}
use ocelotl.Loader.Gguf.Types.{
  GgufTensorEntry, GgmlTensorType, tensor_type_from_raw, byte_len_for_shape,
}
use ocelotl.Loader.Gguf.Reader.{GgufReader, ◌>>◌, done, lift, read_le}
use ocelotl.Loader.Gguf.Reader.Gives.{Gives, Any, Takes-Gives, bind-Gives, done-Gives, lift-Gives}
use ocelotl.Loader.Gguf.Values.{try_reserve_exact}
use ocelotl.Loader.Gguf.Values.Least.{reserve-Stays}
use ocelotl.Loader.Gguf.Values.Kept.{IsText, limited-Gives}
use ocelotl.Loader.Gguf.Reader.Takes.{Stays-Takes, le-Takes}
use ocelotl.Loader.Gguf.Inspect.{dim_product, read_dims, read_shape, describe_tensor, read_tensor}
use ocelotl.Loader.Gguf.Manifest.Counts.{product-Stays}

-- Dimensions, and the number of elements that `c` and they make.
pub record IsShape (n c : ℕ) (shape : List ℕ × ℕ) : Type 0 where
  pub dims : length (shape.0) ≡ n
  pub positive : All (λ d. 0 < d) (shape.0)
  pub elements : shape.1 ≡ c * product (shape.0)

-- The entry of a tensor, where the alignment is `a`.
pub record IsTensor (is_utf8 : List ℕ → Bool) (path : Option String) (limits : ArtifactLimits)
    (a : ℕ) (t : GgufTensorEntry) : Type 0 where
  pub name : IsText is_utf8 limits.max_tensor_name_bytes limits t.name
  pub some_dims : 0 < length t.shape
  pub few_dims : length t.shape ≤ limits.max_tensor_dimensions
  pub positive : All (λ d. 0 < d) t.shape
  pub aligned : t.offset % a ≡ 0
  pub bytes : byte_len_for_shape path t.tensor_type t.shape (product t.shape) ≡ ok t.byte_len

product_ok :
    (c dim p : ℕ) (r s : GgufReader) → dim_product c dim r ≡ ok (p, s) → (0 < dim) × (p ≡ c * dim)
unfolding dim_product checked_mul
product_ok c dim p r s h = (ground arith, ground arith)

regroup : (a b c : ℕ) → a * b * c ≡ a * (b * c)
regroup a b c = grind arith

-- The product that `IsShape` starts with.
whole_product : (shape : List ℕ × ℕ) (n : ℕ) → IsShape n 1 shape → shape.1 ≡ product (shape.0)
whole_product shape n h = h.elements ∙ (omega arith)

described :
    (is_utf8 : List ℕ → Bool) (q : GgufReader) (a : ℕ) (name : List ℕ)
    → IsText is_utf8 q.limits.max_tensor_name_bytes q.limits name
    → (shape : List ℕ × ℕ) (n : ℕ) → 0 < n
    → n ≤ q.limits.max_tensor_dimensions
    → IsShape n 1 shape
    → (t : GgmlTensorType) (offset : ℕ)
    → Gives q (IsTensor is_utf8 q.path q.limits a) (describe_tensor a name shape t offset)
unfolding describe_tensor
described is_utf8 q a name short shape n pos few shaped t offset r s entry h e =
    let aligned : offset % a ≡ 0 = ground arith in
    bind-Gives q (λ b. byte_len_for_shape q.path t (shape.0) (product (shape.0)) ≡ ok b)
      (IsTensor is_utf8 q.path q.limits a)
      (λ r. lift (byte_len_for_shape r.path t (shape.0) (shape.1)) r)
      (λ b. done (record {
        name = name;
        shape = shape.0;
        tensor_type = t;
        offset = offset;
        file_offset = 0;
        byte_len = b;
      }))
      (lift-Gives q _ (λ r. byte_len_for_shape r.path t (shape.0) (shape.1))
        (λ r b h e. rw (h.path, whole_product shape n shaped) at e))
      (λ b eq. done-Gives q (IsTensor is_utf8 q.path q.limits a) _ (record {
        name = short;
        some_dims = omega (arith, shaped.dims);
        few_dims = omega (arith, shaped.dims);
        positive = shaped.positive;
        aligned = aligned;
        bytes = eq;
      }))
      r s entry h (ground arith)

module _ (is_utf8 : List ℕ → Bool) (can_reserve : String → ℕ → Bool) where
  dims-IsShape :
      (q : GgufReader) (n c : ℕ) → Gives q (IsShape n c) (read_dims is_utf8 can_reserve n c)
  unfolding read_dims
  dims-IsShape q zero c =
      done-Gives q _ ([], c) (record { dims = refl; positive = tt; elements = omega arith })
  dims-IsShape q (suc n) c =
      bind-Gives q Any (IsShape (suc n) c) (read_le 8) _
        (Takes-Gives q _ 8 _ (le-Takes 8) (λ r s a h e. tt))
        (λ dim _.
          bind-Gives q (λ p. (0 < dim) × (p ≡ c * dim)) (IsShape (suc n) c) (dim_product c dim) _
            (Takes-Gives q _ 0 _ (Stays-Takes _ (product-Stays c dim))
              (λ r s p h e. product_ok c dim p r s e))
            (λ p (pos, whole).
              bind-Gives q (IsShape n p) (IsShape (suc n) c) (read_dims is_utf8 can_reserve n p) _
                (dims-IsShape q n p)
                (λ rest h.
                  done-Gives q (IsShape (suc n) c) (dim ∷ rest.0, rest.1)
                    (record {
                      dims = ap suc h.dims;
                      positive = (pos, h.positive);
                      elements =
                          h.elements
                          ∙ ap (λ x. x * product (rest.0)) whole
                          ∙ regroup c dim (product (rest.0));
                    }))))

  shape-IsShape :
      (q : GgufReader)
      → Gives q
          (λ shape. (n : ℕ) × (0 < n) × (n ≤ q.limits.max_tensor_dimensions) × IsShape n 1 shape)
          (read_shape is_utf8 can_reserve)
  unfolding read_shape
  shape-IsShape q =
      bind-Gives q Any _ (read_le 4) _ (Takes-Gives q _ 4 _ (le-Takes 4) (λ r s a h e. tt))
        (λ n _ r s shape h e.
          let small : (0 < n) × (n ≤ r.limits.max_tensor_dimensions) = ground arith in
          let limit : r.limits.max_tensor_dimensions ≡ q.limits.max_tensor_dimensions =
            ap (λ (l : ArtifactLimits). l.max_tensor_dimensions) h.limits in
          let read : (try_reserve_exact is_utf8 can_reserve "{name}" n
                  >> read_dims is_utf8 can_reserve n 1)
                r
              ≡ ok (shape, s) =
            ground arith in
          let (shaped, later) =
            bind-Gives q Any (IsShape n 1) (try_reserve_exact is_utf8 can_reserve "{name}" n) _
              (Takes-Gives q _ 0 _ (Stays-Takes _ (reserve-Stays is_utf8 can_reserve "{name}" n))
                (λ r s a h e. tt))
              (λ _ _. dims-IsShape q n 1) r s shape h read in
          ((n, small.0, omega (arith, small.1, limit), shaped), later))

  pub read_tensor-IsTensor :
      (q : GgufReader) (a : ℕ)
      → Gives q (IsTensor is_utf8 q.path q.limits a) (read_tensor is_utf8 can_reserve a)
  unfolding read_tensor
  read_tensor-IsTensor q a =
      bind-Gives q _ _ _ _
        (limited-Gives is_utf8 can_reserve q "tensor name" (λ l. l.max_tensor_name_bytes))
        (λ name short. bind-Gives q _ _ _ _ (shape-IsShape q) (λ shape (n, pos, few, shaped).
          bind-Gives q Any _ (read_le 4) _ (Takes-Gives q _ 4 _ (le-Takes 4) (λ r s v h e. tt))
            (λ raw _.
              bind-Gives q Any _ (read_le 8) _ (Takes-Gives q _ 8 _ (le-Takes 8) (λ r s v h e. tt))
                (λ offset _.
                  described is_utf8 q a name short shape n pos few shaped (tensor_type_from_raw raw)
                    offset))))
