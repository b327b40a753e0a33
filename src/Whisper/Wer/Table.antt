-- ===== src/Whisper/Wer/Table.antt =====
-- The table of edit paths beside the recursion that it stands for.
pub mod Rounds
pub mod Loops
use ocelotl.Common.{
  ℕ, zero, suc, ◌+◌, ◌-◌, ◌*◌, ◌≤◌, ◌<◌, ◌≡◌, refl, sym, ap, ◌∙◌, subst, ◌⊎◌, inl, inr, Bool, true,
  false, Option, none, some, List, [], ◌∷◌, ltb, ◌==◌, if◌then◌else◌, arith, Bool-cases, length,
  replicate, get_elem?, length-replicate,
}
use native.Mathlib.Nat.{mul-le-mul_right}
use ocelotl.Core.Errors.{Result, ok, err, panic, ◌>>=◌}
use ocelotl.Whisper.Wer.{
  EditPath, no_edits, with_substitution, with_insertion, with_deletion, best_path, cell, set_at,
  set_cell, for_range, word, fill_cell, first_column, first_row, edit_path,
}

-- A loop keeps what each of its rounds keeps.
pub range_ok :
    {A : Type 0} (P : ℕ → A → Type 0) (body : ℕ → A → Result A) (count start : ℕ) (a : A)
    → P start a
    → ((k : ℕ) (a : A)
        → start ≤ k
        → k < start + count
        → P k a
        → (a' : A) × (body k a ≡ ok a') × P (k + 1) a')
    → (a' : A) × (for_range count start body a ≡ ok a') × P (start + count) a'
unfolding for_range
range_ok P body zero start a p step =
    let e : start ≡ start + 0 = omega arith in (a, refl, subst (λ k. P k a) e p)
range_ok P body (suc count) start a p step =
    let (b, ran, q) = step start a (omega arith) (omega arith) p in
    let (c, rest, r) =
      range_ok P body count (start + 1) b q
        (λ k x h l px. step k x (omega arith) (omega arith) px) in
    let e : start + 1 + count ≡ start + suc count = omega arith in
    (c, rw (ran, ◌>>=◌) rest, subst (λ k. P k c) e r)

pub word_at :
    {W : Type 0} (ws : List W) (i : ℕ) → i < length ws → (w : W) × (get_elem? ws i ≡ some w)
word_at [] i h = absurd (omega arith)
word_at (w ∷ ws) zero h = (w, refl)
word_at (w ∷ ws) (suc i) h = word_at ws i (omega arith)

-- A cell that was written, and the others.
set_at_same :
    (xs : List EditPath) (k : ℕ) (p : EditPath)
    → k < length xs
    → get_elem? (set_at xs k p) k ≡ some p
unfolding set_at
set_at_same [] k p h = absurd (omega arith)
set_at_same (x ∷ xs) zero p h = refl
set_at_same (x ∷ xs) (suc k) p h = set_at_same xs k p (omega arith)

set_at_other :
    (xs : List EditPath) (k i : ℕ) (p : EditPath)
    → (i ≡ k → ⊥)
    → get_elem? (set_at xs k p) i ≡ get_elem? xs i
unfolding set_at
set_at_other [] k i p h = refl
set_at_other (x ∷ xs) zero zero p h = absurd (h refl)
set_at_other (x ∷ xs) zero (suc i) p h = refl
set_at_other (x ∷ xs) (suc k) zero p h = refl
set_at_other (x ∷ xs) (suc k) (suc i) p h = set_at_other xs k i p (λ e. h (ap suc e))

length-set_at : (xs : List EditPath) (k : ℕ) (p : EditPath) → length (set_at xs k p) ≡ length xs
unfolding set_at
length-set_at [] k p = refl
length-set_at (x ∷ xs) zero p = refl
length-set_at (x ∷ xs) (suc k) p = ap suc (length-set_at xs k p)

-- Rows of `c` cells one after the other.
row_before : (c i i' : ℕ) → i < i' → i * c + c ≤ i' * c
row_before c i i' h =
    let whole : suc i * c ≡ i * c + c = omega arith in
    let more : suc i * c ≤ i' * c = mul-le-mul_right c h in omega arith

place_inj : (c i j i' j' : ℕ) → j < c → j' < c → i * c + j ≡ i' * c + j' → (i ≡ i') × (j ≡ j')
place_inj c i j i' j' h k e = elim (order i i') [
  | inl less ↦ let r = row_before c i i' less in absurd (omega arith)
  | inr (inl more) ↦ let r = row_before c i' i more in absurd (omega arith)
  | inr (inr same) ↦ let r : i * c ≡ i' * c = ap (λ x. x * c) same in (same, omega arith)
]
  where
    order : (a b : ℕ) → (a < b) ⊎ ((b < a) ⊎ (a ≡ b))
    order a b = ground arith

place_inside : (c n i j : ℕ) → i ≤ n → j < c → i * c + j < (n + 1) * c
place_inside c n i j h k = let r = row_before c i (n + 1) (omega arith) in omega arith

module _ {W : Type 0} (same : W → W → Bool) (reference hypothesis : List W) where
  -- Whether the words `i` and `j` are the same.
  abbrev pub same_at : ℕ → ℕ → Bool
  same_at i j = elim (get_elem? reference i) [
    | none ↦ false
    | some r ↦ elim (get_elem? hypothesis j) [ none ↦ false | some h ↦ same r h ]
  ]

  -- The edit path of the first `i` words to the first `j`, by recursion.
  unfoldable pub path : ℕ → ℕ → EditPath
  path zero zero = no_edits
  path (suc i) zero = with_deletion (path i zero)
  path zero (suc j) = with_insertion (path zero j)
  path (suc i) (suc j) =
      if same_at i j
      then path i j
      else best_path (with_substitution (path i j))
          (best_path (with_insertion (path (suc i) j)) (with_deletion (path i (suc j))))

  abbrev n : ℕ
  n = length reference

  abbrev m : ℕ
  m = length hypothesis

  abbrev c : ℕ
  c = length hypothesis + 1

  -- A table whose cells in `D` hold their paths.
  abbrev pub Filled : (ℕ → ℕ → Type 0) → List EditPath → Type 0
  Filled D cells =
      (length cells ≡ (n + 1) * c)
      × ((i j : ℕ) → i ≤ n → j ≤ m → D i j → get_elem? cells (i * c + j) ≡ some (path i j))

  pub cell_ok :
      (D : ℕ → ℕ → Type 0) (cells : List EditPath) (i j : ℕ)
      → Filled D cells
      → i ≤ n
      → j ≤ m
      → D i j
      → cell cells (i * c + j) ≡ ok (path i j)
  unfolding cell
  cell_ok D cells i j f hi hj d = rw (f.1 i j hi hj d, cell) refl

  pub set_cell_ok :
      (D D' : ℕ → ℕ → Type 0) (cells : List EditPath) (i j : ℕ)
      → Filled D cells
      → i ≤ n
      → j ≤ m
      → ((i' j' : ℕ) → i' ≤ n → j' ≤ m → D' i' j' → (D i' j' ⊎ ((i' ≡ i) × (j' ≡ j))))
      → (cells' : List EditPath) × (set_cell cells (i * c + j) (path i j) ≡ ok cells')
        × Filled D' cells'
  unfolding set_cell
  set_cell_ok D D' cells i j f hi hj covers =
      let inside : i * c + j < length cells =
        omega (arith, place_inside c n i j hi (omega arith), f.0) in
      (
        set_at cells (i * c + j) (path i j),
        ground arith,
        (
          length-set_at cells (i * c + j) (path i j) ∙ f.0,
          λ i' j' hi' hj' d'.
              kept i' j' hi' hj' inside (place_or_not (i' * c + j') (i * c + j))
                (covers i' j' hi' hj' d'),
        ),
      )
    where
      place_or_not : (a b : ℕ) → (a ≡ b) ⊎ (a ≡ b → ⊥)
      place_or_not a b = ground arith

      kept :
          (i' j' : ℕ)
          → i' ≤ n
          → j' ≤ m
          → i * c + j < length cells
          → ((i' * c + j' ≡ i * c + j) ⊎ (i' * c + j' ≡ i * c + j → ⊥))
          → (D i' j' ⊎ ((i' ≡ i) × (j' ≡ j)))
          → get_elem? (set_at cells (i * c + j) (path i j)) (i' * c + j') ≡ some (path i' j')
      kept i' j' hi' hj' inside (inl e) cover =
          let (ei, ej) = place_inj c i' j' i j (omega arith) (omega arith) e in
          rw (e, ei, ej) (set_at_same cells (i * c + j) (path i j) inside)
      kept i' j' hi' hj' inside (inr other) (inl d) =
          set_at_other cells (i * c + j) (i' * c + j') (path i j) other ∙ f.1 i' j' hi' hj' d
      kept i' j' hi' hj' inside (inr other) (inr (ei, ej)) =
          absurd (other (ap (λ x. x * c + j') ei ∙ ap (λ x. i * c + x) ej))
