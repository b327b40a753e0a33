-- ===== src/Common/Slices.antt =====
-- Rust's slice operations on lists: `xs[start..start + width]`, and `copy_from_slice` into such a
-- range. Both are defined only where the range lies in the list: elsewhere Rust panics.
use Prim.Native.Nat.{ℕ, zero, suc, ◌+◌, ◌≤◌}
use mathlib.Core.Path.{◌≡◌, refl, ap}
use mathlib.Core.List.{List, [], ◌∷◌, ◌++◌}
use native.Mathlib.Omega.{arith}
use ocelotl.Common.Lists.{length, take, drop, replicate}

module _ {ℓ} {A : Type ℓ} where
  -- The first elements of a list replaced by others.
  pub overwrite : List A → List A → List A
  overwrite xs [] = xs
  overwrite [] (y ∷ ys) = []
  overwrite (x ∷ xs) (y ∷ ys) = y ∷ overwrite xs ys

  -- The elements from `start` on replaced by others.
  pub splice : List A → ℕ → List A → List A
  unfolding overwrite
  splice xs zero ys = overwrite xs ys
  splice [] (suc s) ys = []
  splice (x ∷ xs) (suc s) ys = x ∷ splice xs s ys

  length-overwrite : (xs ys : List A) → length (overwrite xs ys) ≡ length xs
  unfolding overwrite
  length-overwrite xs [] = refl
  length-overwrite [] (y ∷ ys) = refl
  length-overwrite (x ∷ xs) (y ∷ ys) = ap suc (length-overwrite xs ys)

  pub length-splice : (xs : List A) (s : ℕ) (ys : List A) → length (splice xs s ys) ≡ length xs
  unfolding splice
  length-splice xs zero ys = length-overwrite xs ys
  length-splice [] (suc s) ys = refl
  length-splice (x ∷ xs) (suc s) ys = ap suc (length-splice xs s ys)

  take-overwrite :
      (xs ys : List A) → length ys ≤ length xs → take (length ys) (overwrite xs ys) ≡ ys
  unfolding overwrite
  take-overwrite xs [] h = refl
  take-overwrite [] (y ∷ ys) h = elim h [ ]
  take-overwrite (x ∷ xs) (y ∷ ys) h = ap (◌∷◌ y) (take-overwrite xs ys (omega arith))

  drop-overwrite : (xs ys : List A) (t : ℕ) → length ys ≤ t → drop t (overwrite xs ys) ≡ drop t xs
  unfolding overwrite
  drop-overwrite xs [] t h = refl
  drop-overwrite [] (y ∷ ys) t h = refl
  drop-overwrite (x ∷ xs) (y ∷ ys) zero h = elim h [ ]
  drop-overwrite (x ∷ xs) (y ∷ ys) (suc t) h = drop-overwrite xs ys t (omega arith)

  pub slice-splice_same :
      (xs : List A) (s : ℕ) (ys : List A)
      → s + length ys ≤ length xs
      → take (length ys) (drop s (splice xs s ys)) ≡ ys
  unfolding splice
  slice-splice_same xs zero ys h = take-overwrite xs ys (omega arith)
  slice-splice_same [] (suc s) ys h = absurd (omega arith)
  slice-splice_same (x ∷ xs) (suc s) ys h = slice-splice_same xs s ys (omega arith)

  pub slice-splice_above :
      (xs : List A) (s : ℕ) (ys : List A) (t : ℕ)
      → s + length ys ≤ t
      → drop t (splice xs s ys) ≡ drop t xs
  unfolding splice
  slice-splice_above xs zero ys t h = drop-overwrite xs ys t (omega arith)
  slice-splice_above [] (suc s) ys t h = refl
  slice-splice_above (x ∷ xs) (suc s) ys zero h = absurd (omega arith)
  slice-splice_above (x ∷ xs) (suc s) ys (suc t) h = slice-splice_above xs s ys t (omega arith)

  pub slice-splice_below :
      (xs : List A) (s : ℕ) (ys : List A) (t w : ℕ)
      → t + w ≤ s
      → take w (drop t (splice xs s ys)) ≡ take w (drop t xs)
  unfolding splice
  slice-splice_below xs zero ys zero zero h = refl
  slice-splice_below xs zero ys zero (suc w) h = absurd (omega arith)
  slice-splice_below xs zero ys (suc t) w h = absurd (omega arith)
  slice-splice_below [] (suc s) ys t w h = refl
  slice-splice_below (x ∷ xs) (suc s) ys zero zero h = refl
  slice-splice_below (x ∷ xs) (suc s) ys zero (suc w) h =
      ap (◌∷◌ x) (slice-splice_below xs s ys zero w (omega arith))
  slice-splice_below (x ∷ xs) (suc s) ys (suc t) w h = slice-splice_below xs s ys t w (omega arith)

  pub length-slice : (xs : List A) (t w : ℕ) → t + w ≤ length xs → length (take w (drop t xs)) ≡ w
  length-slice xs zero zero h = refl
  length-slice [] zero (suc w) h = absurd (omega arith)
  length-slice (x ∷ xs) zero (suc w) h = ap suc (length-slice xs zero w (omega arith))
  length-slice [] (suc t) w h = absurd (omega arith)
  length-slice (x ∷ xs) (suc t) w h = length-slice xs t w (omega arith)

  -- A part of a constant list is constant.
  pub slice-replicate :
      (n : ℕ) (a : A) (t w : ℕ) → t + w ≤ n → take w (drop t (replicate n a)) ≡ replicate w a
  slice-replicate n a zero zero h = refl
  slice-replicate zero a zero (suc w) h = absurd (omega arith)
  slice-replicate (suc n) a zero (suc w) h = ap (◌∷◌ a) (slice-replicate n a zero w (omega arith))
  slice-replicate zero a (suc t) w h = absurd (omega arith)
  slice-replicate (suc n) a (suc t) w h = slice-replicate n a t w (omega arith)

  -- Filling a list from the left.
  pub splice-prefix :
      (xs ys zs : List A) → splice (xs ++ ys) (length xs) zs ≡ xs ++ splice ys zero zs
  unfolding splice
  splice-prefix [] ys zs = refl
  splice-prefix (x ∷ xs) ys zs = ap (◌∷◌ x) (splice-prefix xs ys zs)

  pub splice-zero :
      (ys zs : List A) → length zs ≤ length ys → splice ys zero zs ≡ zs ++ drop (length zs) ys
  unfolding splice overwrite
  splice-zero ys [] h = refl
  splice-zero [] (z ∷ zs) h = elim h [ ]
  splice-zero (y ∷ ys) (z ∷ zs) h = ap (◌∷◌ z) (splice-zero ys zs (omega arith))
