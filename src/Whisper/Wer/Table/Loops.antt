-- ===== src/Whisper/Wer/Table/Loops.antt =====
-- The loops that fill the table of edit paths, and its last cell.
use ocelotl.Common.{
  ℕ, zero, suc, ◌+◌, ◌*◌, ◌≤◌, ◌<◌, ◌≡◌, refl, ap, ◌∙◌, inl, inr, Bool, some, List, arith, length,
  replicate, get_elem?, length-replicate,
}
use ocelotl.Core.Panics.{or_overflow, isize_max, allocated}
use ocelotl.Core.Words.{le_mul_left, le_mul_right}
use ocelotl.Core.Errors.{ok}
use ocelotl.Whisper.Wer.{
  edit_path_bytes, EditPath, no_edits, for_range, fill_cell, first_column, first_row, edit_path,
}
use ocelotl.Whisper.Wer.Table.{range_ok, path, Filled, cell_ok}
use ocelotl.Whisper.Wer.Table.Rounds.{
  Down, Across, Before, after, first_column_ok, first_row_ok, fill_cell_ok,
}

module _ {W : Type 0} (same : W → W → Bool) (reference hypothesis : List W) where
  Filled-weaken :
      (D D' : ℕ → ℕ → Type 0) (cells : List EditPath)
      → ((i j : ℕ) → i ≤ (length reference) → j ≤ (length hypothesis) → D' i j → D i j)
      → Filled same reference hypothesis D cells
      → Filled same reference hypothesis D' cells
  Filled-weaken D D' cells h f = (f.0, λ i j hi hj d. f.1 i j hi hj (h i j hi hj d))

  -- The rounds of the loops, which count from 1.
  first_column_round :
      (k : ℕ) (cells : List EditPath)
      → 1 ≤ k
      → k < 1 + (length reference)
      → Filled same reference hypothesis (Down k) cells
      → (cells' : List EditPath) × (first_column same (length hypothesis + 1) k cells ≡ ok cells')
        × Filled same reference hypothesis (Down (k + 1)) cells'
  first_column_round zero cells h l f = absurd (omega arith)
  first_column_round (suc a) cells h l f =
      first_column_ok same reference hypothesis a cells (omega arith) f

  first_row_round :
      (k : ℕ) (cells : List EditPath)
      → 1 ≤ k
      → k < 1 + (length hypothesis)
      → Filled same reference hypothesis (Across k) cells
      → (cells' : List EditPath) × (first_row same k cells ≡ ok cells')
        × Filled same reference hypothesis (Across (k + 1)) cells'
  first_row_round zero cells h l f = absurd (omega arith)
  first_row_round (suc b) cells h l f =
      first_row_ok same reference hypothesis b cells (omega arith) f

  cell_round :
      (a k : ℕ) (cells : List EditPath)
      → suc a ≤ (length reference)
      → 1 ≤ k
      → k < 1 + (length hypothesis)
      → Filled same reference hypothesis (Before (suc a) k) cells
      → (cells' : List EditPath) × (fill_cell same reference hypothesis
            (length hypothesis + 1)
            (suc a)
            k
            cells
          ≡ ok cells')
        × Filled same reference hypothesis (Before (suc a) (k + 1)) cells'
  cell_round a zero cells ha h l f = absurd (omega arith)
  cell_round a (suc b) cells ha h l f =
      fill_cell_ok same reference hypothesis a b cells ha (omega arith) f

  row_round :
      (k : ℕ) (cells : List EditPath)
      → 1 ≤ k
      → k < 1 + (length reference)
      → Filled same reference hypothesis (Before k 1) cells
      → (cells' : List EditPath) × (for_range
            (length hypothesis)
            1
            (fill_cell same reference hypothesis (length hypothesis + 1) k)
            cells
          ≡ ok cells')
        × Filled same reference hypothesis (Before (k + 1) 1) cells'
  row_round zero cells h l f = absurd (omega arith)
  row_round (suc a) cells h l f =
      let (cells', ran, f') =
        range_ok (λ k. Filled same reference hypothesis (Before (suc a) k))
          (fill_cell same reference hypothesis (length hypothesis + 1) (suc a)) (length hypothesis)
          1 cells f (λ k x hk lk fk. cell_round a k x (omega arith) hk lk fk) in
      (
        cells',
        ran,
        Filled-weaken (Before (suc a) (1 + (length hypothesis))) (Before (suc a + 1) 1) cells'
            (λ i j hi hj d. ground arith) f',
      )

  started :
      Filled same reference hypothesis
        (Down 1)
        (replicate (((length reference) + 1) * (length hypothesis + 1)) no_edits)
  unfolding path
  started = (
    length-replicate (((length reference) + 1) * (length hypothesis + 1)) no_edits,
    λ i j hi hj (d, e).
        let first : i ≡ 0 = omega arith in
        let at_start : i * (length hypothesis + 1) + j ≡ 0 =
          ap (λ x. x * (length hypothesis + 1) + j) first ∙ (omega arith) in
        let some_cells : 0 < ((length reference) + 1) * (length hypothesis + 1) =
          place_pos (length reference) (length hypothesis) in
        rw (at_start, first, e)
          (head-replicate (((length reference) + 1) * (length hypothesis + 1)) some_cells),
  )
    where
      place_pos : (a b : ℕ) → 0 < (a + 1) * (b + 1)
      place_pos a b = grind arith

      head-replicate : (k : ℕ) → 0 < k → get_elem? (replicate k no_edits) 0 ≡ some no_edits
      head-replicate zero h = absurd (omega arith)
      head-replicate (suc k) h = refl

  -- For any test of equality of words, and any two texts whose table of cells can be allocated: the
  -- table gives the edit path that the recursion defines, and no index of the loops is out of range.
  pub edit_path_matches_path :
      edit_path_bytes * ((length reference + 1) * (length hypothesis + 1)) ≤ isize_max
      → edit_path same reference hypothesis
        ≡ ok (path same reference hypothesis (length reference) (length hypothesis))
  unfolding edit_path
  edit_path_matches_path fits =
      let cells : List EditPath =
        replicate (((length reference) + 1) * (length hypothesis + 1)) no_edits in
      let (down, ran_down, f_down) =
        range_ok (λ k. Filled same reference hypothesis (Down k))
          (first_column same (length hypothesis + 1)) (length reference) 1 cells started
          first_column_round in
      let (across, ran_across, f_across) =
        range_ok (λ k. Filled same reference hypothesis (Across k)) (first_row same)
          (length hypothesis) 1 down
          (Filled-weaken (Down (1 + (length reference))) (Across 1) down
            (λ i j hi hj d. ground arith) f_down)
          first_row_round in
      let (filled, ran, f) =
        range_ok (λ k. Filled same reference hypothesis (Before k 1))
          (λ i.
            for_range (length hypothesis) 1
              (fill_cell same reference hypothesis (length hypothesis + 1) i))
          (length reference) 1 across
          (Filled-weaken (Across (1 + (length hypothesis))) (Before 1 1) across
            (λ i j hi hj d. ground arith) f_across)
          row_round in
      let some_rows : 0 < length reference + 1 = omega arith in
      let some_columns : 0 < length hypothesis + 1 = omega arith in
      let count : ℕ = (length reference + 1) * (length hypothesis + 1) in
      let few_rows : length reference + 1 ≤ count =
        le_mul_right (length reference + 1) (length hypothesis + 1) some_columns in
      let few_columns : length hypothesis + 1 ≤ count =
        le_mul_left (length reference + 1) (length hypothesis + 1) some_rows in
      after (or_overflow (length hypothesis + 1)) _ (length hypothesis + 1) (ground arith)
      ∙ after (or_overflow (length reference + 1)) _ (length reference + 1) (ground arith)
      ∙ after (or_overflow count) _ count (ground arith)
      ∙ after (allocated (edit_path_bytes * count) cells) _ cells (ground arith)
      ∙ after (for_range (length reference) 1 (first_column same (length hypothesis + 1)) cells) _
          down ran_down
      ∙ after (for_range (length hypothesis) 1 (first_row same) down) _ across ran_across
      ∙ after
          (for_range (length reference) 1
            (λ i.
              for_range (length hypothesis) 1
                (fill_cell same reference hypothesis (length hypothesis + 1) i))
            across)
          _ filled ran
      ∙ cell_ok same reference hypothesis (Before (1 + (length reference)) 1) filled
          (length reference) (length hypothesis) f (omega arith) (omega arith)
          (inr (inl (omega arith)))
