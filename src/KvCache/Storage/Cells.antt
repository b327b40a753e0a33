-- ===== src/KvCache/Storage/Cells.antt =====
-- A flat tensor of `cols` positions a layer, each `w` values wide: what one write does to the cells.
use ocelotl.Common.{
  ℕ, ◌+◌, ◌*◌, ◌≤◌, ◌<◌, ◌≡◌, refl, ◌∙◌, subst, inl, inr, ◌&&◌, List, ◌==◌, if◌then◌else◌, arith,
  length, take, drop, replicate, Bool-cases,
}
use ocelotl.Common.Slices.{
  splice, slice-splice_same, slice-splice_above, slice-splice_below, slice-replicate,
}
use ocelotl.Core.KvLayout.Offsets.{cell_lt, cell_ne, window_step}

abbrev pub cell_start : ℕ → ℕ → ℕ → ℕ → ℕ
cell_start cols w i j = (i * cols + j) * w

pub cell_in_range :
    (rows cols w i j n : ℕ)
    → rows * cols * w ≤ n
    → i < rows
    → j < cols
    → cell_start cols w i j + w ≤ n
cell_in_range rows cols w i j n h p q =
    omega (arith, window_step (i * cols + j) (rows * cols) w (cell_lt rows cols i j p q))

module _ {F : Type 0} where
  unfoldable pub cell : ℕ → ℕ → List F → ℕ → ℕ → List F
  cell cols w xs i j = take w (drop (cell_start cols w i j) xs)

  pub cell-splice_same :
      (cols w : ℕ) (xs ys : List F) (i j : ℕ)
      → cell_start cols w i j + w ≤ length xs
      → length ys ≡ w
      → cell cols w (splice xs (cell_start cols w i j) ys) i j ≡ ys
  unfolding cell
  cell-splice_same cols w xs ys i j h e =
      subst (λ k. take k (drop (cell_start cols w i j) (splice xs (cell_start cols w i j) ys)) ≡ ys)
        e (slice-splice_same xs (cell_start cols w i j) ys (omega (arith, e)))

  pub cell-splice_ne :
      (cols w : ℕ) (xs ys : List F) (i j i' j' : ℕ)
      → j < cols
      → j' < cols
      → length ys ≡ w
      → (i ≡ i' → j ≡ j' → ⊥)
      → cell cols w (splice xs (cell_start cols w i j) ys) i' j' ≡ cell cols w xs i' j'
  unfolding cell
  cell-splice_ne cols w xs ys i j i' j' p q e n = elim (cell_ne cols i j i' j' p q n) [
    | inl h ↦
        rw
          (slice-splice_above xs (cell_start cols w i j) ys (cell_start cols w i' j')
            (omega (arith, e, window_step (i * cols + j) (i' * cols + j') w h)))
          refl
    | inr h ↦
        slice-splice_below xs (cell_start cols w i j) ys (cell_start cols w i' j') w
          (window_step (i' * cols + j') (i * cols + j) w h)
  ]

  pub cell-replicate :
      (rows cols w i j n : ℕ) (z : F)
      → rows * cols * w ≤ n
      → i < rows
      → j < cols
      → cell cols w (replicate n z) i j ≡ replicate w z
  unfolding cell
  cell-replicate rows cols w i j n z h p q =
      slice-replicate n z (cell_start cols w i j) w (cell_in_range rows cols w i j n h p q)

-- The contents of a cache as a function of layer and position, and one write to it.
abbrev pub Contents : Type 0 → Type 0
Contents F = ℕ → ℕ → List F

module _ {F : Type 0} where
  abbrev pub put : Contents F → ℕ → ℕ → List F → Contents F
  put f i j row i' j' = if i == i' && j == j' then row else f i' j'

  -- A list of values holds the contents `f`, in `rows` layers of `used` out of `cols` positions.
  abbrev pub Holds : ℕ → ℕ → ℕ → ℕ → List F → Contents F → Type 0
  Holds rows used cols w xs f = (i j : ℕ) → i < rows → j < used → cell cols w xs i j ≡ f i j

  pub splice-Holds :
      (rows used cols w : ℕ) (xs : List F) (f : Contents F) (i j : ℕ) (row : List F)
      → used ≤ cols
      → rows * cols * w ≤ length xs
      → i < rows
      → j < used
      → length row ≡ w
      → Holds rows used cols w xs f
      → Holds rows used cols w (splice xs (cell_start cols w i j) row) (put f i j row)
  splice-Holds rows used cols w xs f i j row u n p q e h i' j' p' q' =
      elim (Bool-cases (i == i' && j == j')) [
        | inl same ↦
            let ei : i ≡ i' = ground arith in
            let ej : j ≡ j' = ground arith in
            rw (same, ← ei, ← ej)
              (cell-splice_same cols w xs row i j
                (cell_in_range rows cols w i j (length xs) n p (omega arith)) e)
        | inr other ↦ rw other (
            cell-splice_ne cols w xs row i j i' j' (omega arith) (omega arith) e
              (λ ei ej. ground arith)
            ∙ h i' j' p' q')
      ]

  pub replicate-Holds :
      (rows used cols w n : ℕ) (z : F)
      → used ≤ cols
      → rows * cols * w ≤ n
      → Holds rows used cols w (replicate n z) (λ i j. replicate w z)
  replicate-Holds rows used cols w n z u h i j p q =
      cell-replicate rows cols w i j n z h p (omega arith)
