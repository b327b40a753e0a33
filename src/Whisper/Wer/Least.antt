-- ===== src/Whisper/Wer/Least.antt =====
-- The edit path of two texts has the fewest errors of all ways to make one from the other.
use ocelotl.Common.{
  ℕ, zero, suc, ◌+◌, ◌*◌, ◌≤◌, ◌≡◌, refl, sym, ap, ◌∙◌, subst, ◌⊎◌, inl, inr, Bool, true, false,
  List, arith, Bool-cases, length,
}
use ocelotl.Core.Panics.{isize_max}
use ocelotl.Core.Errors.{ok}
use ocelotl.Whisper.Wer.{
  edit_path_bytes, EditPath, no_edits, errors, with_substitution, with_insertion, with_deletion,
  edit_sort_key, key_leb, best_path, edit_path,
}
use ocelotl.Whisper.Wer.Table.{same_at, path}
use ocelotl.Whisper.Wer.Table.Loops.{edit_path_matches_path}

best_path_lem :
    (a b : EditPath)
    → (errors (best_path a b) ≤ errors a)
      × (errors (best_path a b) ≤ errors b)
      × ((best_path a b ≡ a) ⊎ (best_path a b ≡ b))
unfolding best_path key_leb edit_sort_key
best_path_lem a b = elim (Bool-cases (key_leb (edit_sort_key a) (edit_sort_key b))) [
  | inl t ↦ rw (t, best_path) (omega arith, ground arith, inl refl)
  | inr f ↦ rw (f, best_path) (ground arith, omega arith, inr refl)
]

module _ {W : Type 0} (same : W → W → Bool) (reference hypothesis : List W) where
  -- The ways to make the first `j` words of the second text from the first `i` of the first.
  pub data Script : ℕ → ℕ → EditPath → Type 0 where
    start : Script 0 0 no_edits
    keep :
        {i j : ℕ} {p : EditPath}
        → same_at same reference hypothesis i j ≡ true
        → Script i j p
        → Script (suc i) (suc j) p
    substitute :
        {i j : ℕ} {p : EditPath} → Script i j p → Script (suc i) (suc j) (with_substitution p)
    insert : {i j : ℕ} {p : EditPath} → Script i j p → Script i (suc j) (with_insertion p)
    delete : {i j : ℕ} {p : EditPath} → Script i j p → Script (suc i) j (with_deletion p)

  abbrev pub e : ℕ → ℕ → ℕ
  e i j = errors (path same reference hypothesis i j)

  -- A cell of the table inside.
  record IsLeastOf (x a b c : ℕ) : Type 0 where
    pub first : x ≤ a + 1
    pub second : x ≤ b + 1
    pub third : x ≤ c + 1
    pub reached : (x ≡ a + 1) ⊎ ((x ≡ b + 1) ⊎ (x ≡ c + 1))

  inner_errors :
      (i j : ℕ)
      → ((same_at same reference hypothesis i j ≡ true) × (e (suc i) (suc j) ≡ e i j))
        ⊎ ((same_at same reference hypothesis i j ≡ false)
            × IsLeastOf (e (suc i) (suc j)) (e i j) (e (suc i) j) (e i (suc j)))
  unfolding path
  inner_errors i j = elim (Bool-cases (same_at same reference hypothesis i j)) [
    | inl t ↦ inl (t, rw (t, path) refl)
    | inr f ↦ inr (
      f,
      rw (f, path)
          (least (path same reference hypothesis i j) (path same reference hypothesis (suc i) j)
            (path same reference hypothesis i (suc j))),
    )
  ]
    where
      least :
          (p q r : EditPath)
          → IsLeastOf
              (errors
                (best_path (with_substitution p) (best_path (with_insertion q) (with_deletion r))))
              (errors p)
              (errors q)
              (errors r)
      least p q r =
          let (q_bound, r_bound, inner) = best_path_lem (with_insertion q) (with_deletion r) in
          let rest : EditPath = best_path (with_insertion q) (with_deletion r) in
          let (p_bound, rest_bound, outer) = best_path_lem (with_substitution p) rest in
          record {
            first = omega arith;
            second = omega arith;
            third = omega arith;
            reached = elim outer [
              | inl is_p ↦ inl (ap errors is_p ∙ (omega arith))
              | inr is_rest ↦ elim inner [
                | inl is_q ↦ inr (inl (ap errors is_rest ∙ ap errors is_q ∙ (omega arith)))
                | inr is_r ↦ inr (inr (ap errors is_rest ∙ ap errors is_r ∙ (omega arith)))
              ]
            ];
          }

  -- One word more on a side changes the errors by one at most.
  record IsSmooth (i j : ℕ) : Type 0 where
    pub down_up : e (suc i) j ≤ e i j + 1
    pub across_up : e i (suc j) ≤ e i j + 1
    pub down_back : e i j ≤ e (suc i) j + 1
    pub across_back : e i j ≤ e i (suc j) + 1

  first_column_errors : (i : ℕ) → e (suc i) 0 ≡ e i 0 + 1
  unfolding path
  first_column_errors i = omega arith

  first_row_errors : (j : ℕ) → e 0 (suc j) ≡ e 0 j + 1
  unfolding path
  first_row_errors j = omega arith

  -- A cell beside the one before it in its column, and in its row, from what is known of the last ones.
  below :
      (i j : ℕ)
      → e i j ≤ e i (suc j) + 1
      → e i (suc j) ≤ e i j + 1
      → e i j ≤ e (suc i) j + 1
      → (e (suc i) (suc j) ≤ e i (suc j) + 1) × (e i (suc j) ≤ e (suc i) (suc j) + 1)
  below i j back up down = elim (inner_errors i j) [
    | inl (_, same_errors) ↦ (omega arith, omega arith)
    | inr (_, least) ↦ (
      omega (arith, least.third),
      elim least.reached [
        | inl a ↦ omega arith
        | inr (inl b) ↦ omega arith
        | inr (inr c) ↦ omega arith
      ],
    )
  ]

  beside :
      (i j : ℕ)
      → e i j ≤ e (suc i) j + 1
      → e (suc i) j ≤ e i j + 1
      → e i j ≤ e i (suc j) + 1
      → (e (suc i) (suc j) ≤ e (suc i) j + 1) × (e (suc i) j ≤ e (suc i) (suc j) + 1)
  beside i j back up across = elim (inner_errors i j) [
    | inl (_, same_errors) ↦ (omega arith, omega arith)
    | inr (_, least) ↦ (
      omega (arith, least.second),
      elim least.reached [
        | inl a ↦ omega arith
        | inr (inl b) ↦ omega arith
        | inr (inr c) ↦ omega arith
      ],
    )
  ]

  smooth : (i j : ℕ) → IsSmooth i j
  smooth zero zero = record {
    down_up = omega (arith, first_column_errors 0);
    across_up = omega (arith, first_row_errors 0);
    down_back = omega (arith, first_column_errors 0);
    across_back = omega (arith, first_row_errors 0);
  }
  smooth (suc i) zero =
      let s = smooth i zero in
      let (up, back) = beside i zero s.down_back s.down_up s.across_back in
      record {
        down_up = omega (arith, first_column_errors (suc i));
        across_up = up;
        down_back = omega (arith, first_column_errors (suc i));
        across_back = back;
      }
  smooth zero (suc j) =
      let s = smooth zero j in
      let (up, back) = below zero j s.across_back s.across_up s.down_back in
      record {
        down_up = up;
        across_up = omega (arith, first_row_errors (suc j));
        down_back = back;
        across_back = omega (arith, first_row_errors (suc j));
      }
  smooth (suc i) (suc j) =
      let s = smooth (suc i) j in
      let t = smooth i (suc j) in
      let (down_up, down_back) = below (suc i) j s.across_back s.across_up s.down_back in
      let (across_up, across_back) = beside i (suc j) t.down_back t.down_up t.across_back in
      record {
        down_up = down_up;
        across_up = across_up;
        down_back = down_back;
        across_back = across_back;
      }

  -- No script has fewer errors.
  script_errors : (i j : ℕ) (p : EditPath) → Script i j p → e i j ≤ errors p
  unfolding path
  script_errors _ _ _ start = omega arith
  script_errors _ _ _ (keep {i} {j} {p} t s) = elim (inner_errors i j) [
    | inl (_, same_errors) ↦ omega (arith, script_errors i j p s)
    | inr (f, _) ↦ absurd (cc)
  ]
  script_errors _ _ _ (substitute {i} {j} {p} s) = elim (inner_errors i j) [
    | inl (_, same_errors) ↦ omega (arith, script_errors i j p s)
    | inr (_, least) ↦ omega (arith, script_errors i j p s, least.first)
  ]
  script_errors _ _ _ (insert {i} {j} {p} s) =
      let sm = smooth i j in omega (arith, script_errors i j p s, sm.across_up)
  script_errors _ _ _ (delete {i} {j} {p} s) =
      let sm = smooth i j in omega (arith, script_errors i j p s, sm.down_up)

  -- The path itself is a script.
  best_path-Script :
      (i j : ℕ) (a b : EditPath) → Script i j a → Script i j b → Script i j (best_path a b)
  best_path-Script i j a b p q =
      let (_, _, chosen) = best_path_lem a b in
      elim chosen [
        | inl is_a ↦ subst (Script i j) (sym is_a) p
        | inr is_b ↦ subst (Script i j) (sym is_b) q
      ]

  path-Script : (i j : ℕ) → Script i j (path same reference hypothesis i j)
  unfolding path
  path-Script zero zero = start
  path-Script (suc i) zero = delete (path-Script i zero)
  path-Script zero (suc j) = insert (path-Script zero j)
  path-Script (suc i) (suc j) =
      let diagonal = path-Script i j in
      let left = path-Script (suc i) j in
      let above = path-Script i (suc j) in
      elim (Bool-cases (same_at same reference hypothesis i j)) [
        | inl t ↦ rw (t, path) (keep t diagonal)
        | inr f ↦
            rw (f, path)
              (best_path-Script (suc i) (suc j) _ _ (substitute diagonal)
                (best_path-Script (suc i) (suc j) _ _ (insert left) (delete above)))
      ]

  -- The cells count no more edits than the words of both texts.
  pub path_errors-bound : (i j : ℕ) → e i j ≤ i + j
  unfolding path
  path_errors-bound zero zero = omega arith
  path_errors-bound zero (suc j) = omega (arith, path_errors-bound zero j)
  path_errors-bound (suc i) j =
      let s = smooth i j in omega (arith, path_errors-bound i j, s.down_up)

  -- For two texts whose table of cells can be allocated: the edit path is found, it makes the second
  -- text from the first by keeping the words that are the same, and no way to do so has fewer
  -- substitutions, insertions and deletions together.
  pub edit_path_least :
      edit_path_bytes * ((length reference + 1) * (length hypothesis + 1)) ≤ isize_max
      → (p : EditPath) × (edit_path same reference hypothesis ≡ ok p)
        × Script (length reference) (length hypothesis) p
        × ((q : EditPath) → Script (length reference) (length hypothesis) q → errors p ≤ errors q)
  edit_path_least fits = (
    path same reference hypothesis (length reference) (length hypothesis),
    edit_path_matches_path same reference hypothesis fits,
    path-Script (length reference) (length hypothesis),
    λ q s. script_errors (length reference) (length hypothesis) q s,
  )
