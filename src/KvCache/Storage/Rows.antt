-- ===== src/KvCache/Storage/Rows.antt =====
-- crates/runtime/src/kv_cache.rs, the loop of `copy_contiguous_layer` and `copy_paged_layer`.
use mathlib.Core.List.{append_assoc}
use ocelotl.Common.{
  ℕ, zero, suc, ◌+◌, ◌*◌, ◌≤◌, ◌<◌, ◌≡◌, refl, ap, ◌∙◌, List, [], ◌∷◌, ◌++◌, arith, length, take,
  drop, length-append, length-drop,
}
use ocelotl.Common.Slices.{splice, splice-prefix, splice-zero, length-slice}
use ocelotl.Core.Errors.{Result, ok}
use ocelotl.KvCache.Storage.{slice, copy_into, copy_rows}

module _ {F : Type 0} where
  -- `rounds` rows one after the other, from `position` on.
  unfoldable pub gather : (ℕ → List F) → ℕ → ℕ → List F
  gather row zero position = []
  gather row (suc rounds) position = row position ++ gather row rounds (position + 1)

  pub gather_ext :
      (f g : ℕ → List F) (n p : ℕ) → ((i : ℕ) → i < p + n → f i ≡ g i) → gather f n p ≡ gather g n p
  unfolding gather
  gather_ext f g zero p h = refl
  gather_ext f g (suc n) p h =
      rw (h p (omega arith), gather_ext f g n (p + 1) (λ i k. h i (omega arith))) refl

  pub slice_in_range :
      (xs : List F) (s w : ℕ) → s + w ≤ length xs → slice xs s w ≡ ok (take w (drop s xs))
  unfolding slice
  slice_in_range xs s w h = ground arith

  pub copy_in_range :
      (xs : List F) (s : ℕ) (ys : List F)
      → s + length ys ≤ length xs
      → copy_into xs s ys ≡ ok (splice xs s ys)
  unfolding copy_into
  copy_in_range xs s ys h = ground arith

  splice_next :
      (done rest row : List F) (k : ℕ)
      → length done ≡ k
      → length row ≤ length rest
      → splice (done ++ rest) k row ≡ (done ++ row) ++ drop (length row) rest
  splice_next done rest row k e h =
      rw
        (
          ← e,
          splice-prefix done rest row,
          splice-zero rest row h,
          append_assoc done row (drop (length row) rest),
        )
        refl

  empty_of_length : (xs : List F) → length xs ≡ 0 → xs ≡ []
  empty_of_length [] h = refl
  empty_of_length (x ∷ xs) h = absurd (omega arith)

  module _ (offset : ℕ → Result ℕ) (src : List F) (w : ℕ) (start : ℕ → ℕ) where
    abbrev row : ℕ → List F
    row i = take w (drop (start i) src)

    pub copy_rows_lem :
        (n p : ℕ) (done rest : List F)
        → ((i : ℕ) → i < p + n → (offset i ≡ ok (start i)) × (start i + w ≤ length src))
        → length done ≡ p * w
        → length rest ≡ n * w
        → copy_rows offset src w n p (done ++ rest) ≡ (done ++ gather row n p, ok tt)
    unfolding copy_rows gather
    copy_rows_lem zero p done rest ready d r = rw (empty_of_length rest (omega arith)) refl
    copy_rows_lem (suc n) p done rest ready d r =
        rw
          (
            (ready p (omega arith)).0,
            slice_in_range src (start p) w (ready p (omega arith)).1,
            copy_in_range (done ++ rest) (p * w) (row p)
                (omega (arith, length-append done rest, wide, r)),
            splice_next done rest (row p) (p * w) d (omega (arith, wide, r)),
          )
          (copy_rows_lem n (p + 1) (done ++ row p) (drop (length (row p)) rest)
              (λ i k. ready i (omega arith)) (omega (arith, length-append done (row p), wide))
              (omega (arith, length-drop (length (row p)) rest, wide, r))
            ∙ ap (λ z. (z, ok tt)) (append_assoc done (row p) (gather row n (p + 1))))
      where
        wide : length (row p) ≡ w
        wide = length-slice src (start p) w (ready p (omega arith)).1
