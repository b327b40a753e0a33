-- ===== src/Whisper/Wer.antt =====
-- crates/models/src/whisper/wer.rs: the table of edit paths between two texts. A word is of a type `W`
-- with its test of equality. The allocation of the table panics where the number of cells does not fit.
-- Behind it an index that did not fit a `usize` would be out of range, which panics too, and a count of
-- edits in a cell is at most the row and the column of the cell together.
pub mod Table
pub mod Least
use ocelotl.Common.{
  ℕ, zero, suc, ◌+◌, ◌-◌, ◌*◌, Bool, true, false, not, ◌&&◌, ◌||◌, Option, none, some, List, [],
  ◌∷◌, ◌++◌, String, ltb, leb, ◌==◌, if◌then◌else◌, length, is_empty, replicate, get_elem?,
}
use ocelotl.Core.Panics.{or_overflow, isize_max, allocated}
use ocelotl.Core.Errors.{Result, ok, err, panic, ◌>>=◌, invalid_request_err}

pub record WerEditCounts : Type 0 where
  pub substitutions : ℕ
  pub insertions : ℕ
  pub deletions : ℕ
  pub reference_words : ℕ

pub record EditPath : Type 0 where
  pub substitutions : ℕ
  pub insertions : ℕ
  pub deletions : ℕ

-- The size of an `EditPath`.
abbrev pub edit_path_bytes : ℕ
edit_path_bytes = 24

abbrev pub no_edits : EditPath
no_edits = record { substitutions = 0; insertions = 0; deletions = 0 }

abbrev pub errors : EditPath → ℕ
errors p = p.substitutions + p.insertions + p.deletions

abbrev pub with_substitution : EditPath → EditPath
with_substitution p = record p { substitutions = p.substitutions + 1 }

abbrev pub with_insertion : EditPath → EditPath
with_insertion p = record p { insertions = p.insertions + 1 }

abbrev pub with_deletion : EditPath → EditPath
with_deletion p = record p { deletions = p.deletions + 1 }

abbrev pub into_counts : EditPath → ℕ → WerEditCounts
into_counts p reference_words = record {
  substitutions = p.substitutions;
  insertions = p.insertions;
  deletions = p.deletions;
  reference_words = reference_words;
}

-- The key's components, the most important one first.
unfoldable pub edit_sort_key : EditPath → List ℕ
edit_sort_key p =
    errors p ∷ (p.insertions + p.deletions) ∷ p.substitutions ∷ p.insertions ∷ p.deletions ∷ []

-- `<=` on tuples.
unfoldable pub key_leb : List ℕ → List ℕ → Bool
key_leb [] ys = true
key_leb (x ∷ xs) [] = false
key_leb (x ∷ xs) (y ∷ ys) = ltb x y || x == y && key_leb xs ys

unfoldable pub best_path : EditPath → EditPath → EditPath
best_path a b = if key_leb (edit_sort_key a) (edit_sort_key b) then a else b

-- `cells[k]`, read and written.
unfoldable pub cell : List EditPath → ℕ → Result EditPath
cell cells k = elim (get_elem? cells k) [ none ↦ panic | some p ↦ ok p ]

unfoldable pub set_at : List EditPath → ℕ → EditPath → List EditPath
set_at [] k p = []
set_at (x ∷ xs) zero p = p ∷ xs
set_at (x ∷ xs) (suc k) p = x ∷ set_at xs k p

unfoldable pub set_cell : List EditPath → ℕ → EditPath → Result (List EditPath)
set_cell cells k p = if ltb k (length cells) then ok (set_at cells k p) else panic

-- `for k in start..start + count`.
unfoldable pub for_range {ℓ} : {A : Type ℓ} → ℕ → ℕ → (ℕ → A → Result A) → A → Result A
for_range zero start body a = ok a
for_range (suc count) start body a = body start a >>= for_range count (start + 1) body

module _ {W : Type 0} (same : W → W → Bool) where
  -- The word `i` of a slice.
  abbrev pub word : List W → ℕ → Result W
  word ws i = elim (get_elem? ws i) [ none ↦ panic | some w ↦ ok w ]

  unfoldable pub fill_cell : List W → List W → ℕ → ℕ → ℕ → List EditPath → Result (List EditPath)
  fill_cell reference hypothesis columns i j cells = do
    r ← word reference (i - 1)
    h ← word hypothesis (j - 1)
    diagonal ← cell cells ((i - 1) * columns + (j - 1))
    if same r h then set_cell cells (i * columns + j) diagonal else (do
      left ← cell cells (i * columns + (j - 1))
      above ← cell cells ((i - 1) * columns + j)
      set_cell cells (i * columns + j) (
          best_path (with_substitution diagonal)
            (best_path (with_insertion left) (with_deletion above))))

  unfoldable pub first_column : ℕ → ℕ → List EditPath → Result (List EditPath)
  first_column columns i cells = do
    previous ← cell cells ((i - 1) * columns)
    set_cell cells (i * columns) (with_deletion previous)

  unfoldable pub first_row : ℕ → List EditPath → Result (List EditPath)
  first_row j cells = do previous ← cell cells (j - 1); set_cell cells j (with_insertion previous)

  unfoldable pub edit_path : List W → List W → Result EditPath
  edit_path reference hypothesis = do
    let n = length reference
    let m = length hypothesis
    columns ← or_overflow (m + 1)
    rows ← or_overflow (n + 1)
    count ← or_overflow (rows * columns)
    cells ← allocated (edit_path_bytes * count) (replicate count no_edits)
    down ← for_range n 1 (first_column columns) cells
    across ← for_range m 1 first_row down
    filled ← for_range n 1 (λ i. for_range m 1 (fill_cell reference hypothesis columns i)) across
    cell filled (n * columns + m)
