-- ===== src/Whisper/Wer/Table/Rounds.antt =====
-- The bodies of the loops that fill the table of edit paths.
use ocelotl.Common.{
  ℕ, suc, ◌+◌, ◌-◌, ◌*◌, ◌≤◌, ◌<◌, ◌≡◌, refl, sym, ap, ◌∙◌, ◌⊎◌, inl, inr, Bool, true, false, some,
  List, arith, Bool-cases, length, get_elem?,
}
use ocelotl.Core.Errors.{Result, ok, ◌>>=◌}
use ocelotl.Whisper.Wer.{
  EditPath, with_substitution, with_insertion, with_deletion, best_path, cell, set_cell, word,
  fill_cell, first_column, first_row,
}
use ocelotl.Whisper.Wer.Table.{word_at, same_at, path, Filled, cell_ok, set_cell_ok}

-- The cells that the loops have filled: of the first column; of the first row besides; and of the
-- rows before `i0` and of the row `i0` before `j0` besides.
abbrev pub Down : ℕ → ℕ → ℕ → Type 0
Down k i j = (i < k) × (j ≡ 0)

abbrev pub Across : ℕ → ℕ → ℕ → Type 0
Across k i j = (j ≡ 0) ⊎ ((i ≡ 0) × (j < k))

abbrev pub Before : ℕ → ℕ → ℕ → ℕ → Type 0
Before i0 j0 i j = ((i ≡ 0) ⊎ (j ≡ 0)) ⊎ ((i < i0) ⊎ ((i ≡ i0) × (j < j0)))

pub after : {A B : Type 0} (r : Result A) (f : A → Result B) (a : A) → r ≡ ok a → (r >>= f) ≡ f a
after r f a e = ap (λ x. x >>= f) e

module _ {W : Type 0} (same : W → W → Bool) (reference hypothesis : List W) where
  pub first_column_ok :
      (a : ℕ) (cells : List EditPath)
      → suc a ≤ (length reference)
      → Filled same reference hypothesis (Down (suc a)) cells
      → (cells' : List EditPath) × (first_column same (length hypothesis + 1) (suc a) cells
          ≡ ok cells')
        × Filled same reference hypothesis (Down (suc a + 1)) cells'
  unfolding first_column path
  first_column_ok a cells h f =
      let index : (suc a - 1) * (length hypothesis + 1) ≡ a * (length hypothesis + 1) + 0 =
        let e : suc a - 1 ≡ a = omega arith in
        ap (λ x. x * (length hypothesis + 1)) e ∙ (omega arith) in
      let place : suc a * (length hypothesis + 1) ≡ suc a * (length hypothesis + 1) + 0 =
        omega arith in
      let read : cell cells ((suc a - 1) * (length hypothesis + 1))
          ≡ ok (path same reference hypothesis a 0) =
        ap (cell cells) index
        ∙ cell_ok same reference hypothesis (Down (suc a)) cells a 0 f (omega arith) (omega arith)
            (omega arith, refl) in
      let (cells', set, f') =
        set_cell_ok same reference hypothesis (Down (suc a)) (Down (suc a + 1)) cells (suc a) 0 f h
          (omega arith) (λ i j hi hj d. ground arith) in
      (
        cells',
        after (cell cells ((suc a - 1) * (length hypothesis + 1))) _
              (path same reference hypothesis a 0) read
            ∙ ap (λ k. set_cell cells k (with_deletion (path same reference hypothesis a 0))) place
            ∙ set,
        f',
      )

  pub first_row_ok :
      (b : ℕ) (cells : List EditPath)
      → suc b ≤ (length hypothesis)
      → Filled same reference hypothesis (Across (suc b)) cells
      → (cells' : List EditPath) × (first_row same (suc b) cells ≡ ok cells')
        × Filled same reference hypothesis (Across (suc b + 1)) cells'
  unfolding first_row path
  first_row_ok b cells h f =
      let index : suc b - 1 ≡ 0 * (length hypothesis + 1) + b = omega arith in
      let place : suc b ≡ 0 * (length hypothesis + 1) + suc b = omega arith in
      let read : cell cells (suc b - 1) ≡ ok (path same reference hypothesis 0 b) =
        ap (cell cells) index
        ∙ cell_ok same reference hypothesis (Across (suc b)) cells 0 b f (omega arith) (omega arith)
            (inr (refl, omega arith)) in
      let (cells', set, f') =
        set_cell_ok same reference hypothesis (Across (suc b)) (Across (suc b + 1)) cells 0 (suc b)
          f (omega arith) h (λ i j hi hj d. ground arith) in
      (
        cells',
        after (cell cells (suc b - 1)) _ (path same reference hypothesis 0 b) read
            ∙ ap (λ k. set_cell cells k (with_insertion (path same reference hypothesis 0 b))) place
            ∙ set,
        f',
      )

  -- Where the words differ, the cell takes the best of three paths.
  differ :
      (a b : ℕ) (cells : List EditPath) (r h : W)
      → same r h ≡ false
      → get_elem? reference a ≡ some r
      → get_elem? hypothesis b ≡ some h
      → path same reference hypothesis (suc a) (suc b)
        ≡ best_path (with_substitution (path same reference hypothesis a b)) (
            best_path
              (with_insertion (path same reference hypothesis (suc a) b))
              (with_deletion (path same reference hypothesis a (suc b))))
  unfolding path
  differ a b cells r h e found_r found_h =
      let apart : same_at same reference hypothesis a b ≡ false =
        rw (found_r, found_h, same_at) e in
      rw (apart, path) refl

  agree :
      (a b : ℕ) (r h : W)
      → same r h ≡ true
      → get_elem? reference a ≡ some r
      → get_elem? hypothesis b ≡ some h
      → path same reference hypothesis (suc a) (suc b) ≡ path same reference hypothesis a b
  unfolding path
  agree a b r h e found_r found_h =
      let alike : same_at same reference hypothesis a b ≡ true = rw (found_r, found_h, same_at) e in
      rw (alike, path) refl

  pub fill_cell_ok :
      (a b : ℕ) (cells : List EditPath)
      → suc a ≤ (length reference)
      → suc b ≤ (length hypothesis)
      → Filled same reference hypothesis (Before (suc a) (suc b)) cells
      → (cells' : List EditPath) × (fill_cell same reference hypothesis
            (length hypothesis + 1)
            (suc a)
            (suc b)
            cells
          ≡ ok cells')
        × Filled same reference hypothesis (Before (suc a) (suc b + 1)) cells'
  unfolding fill_cell
  fill_cell_ok a b cells ha hb f =
      let D : ℕ → ℕ → Type 0 = Before (suc a) (suc b) in
      let (r, found_r) = word_at reference a ha in
      let (h, found_h) = word_at hypothesis b hb in
      let ea : suc a - 1 ≡ a = omega arith in
      let eb : suc b - 1 ≡ b = omega arith in
      let read_r : word same reference (suc a - 1) ≡ ok r =
        ap (word same reference) ea ∙ (rw (found_r, word) refl) in
      let read_h : word same hypothesis (suc b - 1) ≡ ok h =
        ap (word same hypothesis) eb ∙ (rw (found_h, word) refl) in
      let at_diagonal : (suc a - 1) * (length hypothesis + 1) + (suc b - 1)
          ≡ a * (length hypothesis + 1) + b =
        ap (λ x. x * (length hypothesis + 1) + (suc b - 1)) ea
        ∙ ap (λ x. a * (length hypothesis + 1) + x) eb in
      let at_left : suc a * (length hypothesis + 1) + (suc b - 1)
          ≡ suc a * (length hypothesis + 1) + b =
        ap (λ x. suc a * (length hypothesis + 1) + x) eb in
      let at_above : (suc a - 1) * (length hypothesis + 1) + suc b
          ≡ a * (length hypothesis + 1) + suc b =
        ap (λ x. x * (length hypothesis + 1) + suc b) ea in
      let diagonal : cell cells ((suc a - 1) * (length hypothesis + 1) + (suc b - 1))
          ≡ ok (path same reference hypothesis a b) =
        ap (cell cells) at_diagonal
        ∙ cell_ok same reference hypothesis D cells a b f (omega arith) (omega arith)
            (inr (inl (omega arith))) in
      let left : cell cells (suc a * (length hypothesis + 1) + (suc b - 1))
          ≡ ok (path same reference hypothesis (suc a) b) =
        ap (cell cells) at_left
        ∙ cell_ok same reference hypothesis D cells (suc a) b f ha (omega arith)
            (inr (inr (refl, omega arith))) in
      let above : cell cells ((suc a - 1) * (length hypothesis + 1) + suc b)
          ≡ ok (path same reference hypothesis a (suc b)) =
        ap (cell cells) at_above
        ∙ cell_ok same reference hypothesis D cells a (suc b) f (omega arith) hb
            (inr (inl (omega arith))) in
      let (cells', set, f') =
        set_cell_ok same reference hypothesis D (Before (suc a) (suc b + 1)) cells (suc a) (suc b) f
          ha hb (λ i j hi hj d. ground arith) in
      (
        cells',
        after (word same reference (suc a - 1)) _ r read_r
            ∙ after (word same hypothesis (suc b - 1)) _ h read_h
            ∙ after (cell cells ((suc a - 1) * (length hypothesis + 1) + (suc b - 1))) _
                (path same reference hypothesis a b) diagonal
            ∙ elim (Bool-cases (same r h)) [
              | inl t ↦ rw t (
                  ap (set_cell cells (suc a * (length hypothesis + 1) + suc b))
                    (sym (agree a b r h t found_r found_h))
                  ∙ set)
              | inr e ↦ rw e (
                  after (cell cells (suc a * (length hypothesis + 1) + (suc b - 1))) _
                    (path same reference hypothesis (suc a) b) left
                  ∙ after (cell cells ((suc a - 1) * (length hypothesis + 1) + suc b)) _
                      (path same reference hypothesis a (suc b)) above
                  ∙ ap (set_cell cells (suc a * (length hypothesis + 1) + suc b))
                      (sym (differ a b cells r h e found_r found_h))
                  ∙ set)
            ],
        f',
      )
