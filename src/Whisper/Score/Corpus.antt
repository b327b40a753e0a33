-- ===== src/Whisper/Score/Corpus.antt =====
-- What the score of a corpus adds up to.
use ocelotl.Common.{
  ℕ, ◌+◌, ◌*◌, ◌≤◌, ◌<◌, ◌≡◌, refl, ap, Bool, false, List, [], ◌∷◌, String, arith, length, is_empty,
  All,
}
use ocelotl.Core.Panics.{isize_max, allocated}
use ocelotl.Core.Words.{usize_range}
use ocelotl.Core.Errors.{ok, ◌>>=◌}
use ocelotl.Whisper.Wer.{EditPath, WerEditCounts, errors, into_counts, edit_path, edit_path_bytes}
use ocelotl.Whisper.Wer.Table.{path}
use ocelotl.Whisper.Wer.Table.Loops.{edit_path_matches_path}
use ocelotl.Whisper.Wer.Least.{path_errors-bound}
use ocelotl.Whisper.Score.{
  WerScore, WerCorpusCase, WerCorpusCaseScore, WerCorpusReport, no_counts, add_assign,
  word_error_rate, from_counts, normalized_words, wer_edit_counts, wer_score, score_cases,
  score_wer_corpus, case_score_bytes,
}

-- All edits that are counted.
abbrev pub edits : WerEditCounts → ℕ
edits c = c.substitutions + c.insertions + c.deletions

-- The sum of two counts, where no field overflows.
record IsSum (a b c : WerEditCounts) : Type 0 where
  pub substitutions : c.substitutions ≡ a.substitutions + b.substitutions
  pub insertions : c.insertions ≡ a.insertions + b.insertions
  pub deletions : c.deletions ≡ a.deletions + b.deletions
  pub reference_words : c.reference_words ≡ a.reference_words + b.reference_words

add_assign_ok :
    (a b : WerEditCounts)
    → edits a + edits b < usize_range
    → a.reference_words + b.reference_words < usize_range
    → (c : WerEditCounts) × (add_assign a b ≡ ok c) × IsSum a b c
unfolding add_assign
add_assign_ok a b h k = (
  record {
    substitutions = a.substitutions + b.substitutions;
    insertions = a.insertions + b.insertions;
    deletions = a.deletions + b.deletions;
    reference_words = a.reference_words + b.reference_words;
  },
  ground arith,
  record { substitutions = refl; insertions = refl; deletions = refl; reference_words = refl },
)

module _ {D : Type 0} (ratio : ℕ → ℕ → D) where
  -- A field of the counts, added up over scores.
  abbrev pub total : (WerEditCounts → ℕ) → List (WerCorpusCaseScore D) → ℕ
  total field [] = 0
  total field (s ∷ ss) = field s.score.counts + total field ss

  -- Counts that are `start` and those of the scores together.
  pub record IsTotal (start : WerEditCounts) (scores : List (WerCorpusCaseScore D))
      (c : WerEditCounts) : Type 0 where
    pub substitutions : c.substitutions ≡ start.substitutions + total (λ x. x.substitutions) scores
    pub insertions : c.insertions ≡ start.insertions + total (λ x. x.insertions) scores
    pub deletions : c.deletions ≡ start.deletions + total (λ x. x.deletions) scores
    pub reference_words :
        c.reference_words ≡ start.reference_words + total (λ x. x.reference_words) scores

  from_counts_ok :
      (c : WerEditCounts)
      → 0 < c.reference_words
      → edits c < usize_range
      → from_counts ratio c ≡ ok (record { counts = c; wer = ratio (edits c) c.reference_words })
  unfolding from_counts word_error_rate
  from_counts_ok c h k = ground arith

  module _ {C W : Type 0} (to_lowercase : C → List C) (is_alphanumeric : C → Bool) (space : C)
      (split_whitespace : List C → List W) (same : W → W → Bool) (is_blank : String → Bool) where
    abbrev pub words_of : List C → List W
    words_of transcript =
        normalized_words ratio to_lowercase is_alphanumeric space split_whitespace same is_blank
          transcript

    abbrev pub reference_count : WerCorpusCase C → ℕ
    reference_count x = length (words_of x.expected_transcript)

    abbrev pub hypothesis_count : WerCorpusCase C → ℕ
    hypothesis_count x = length (words_of x.recognized_transcript)

    -- A case with an id, with a reference that has a word, and with a table that can be allocated.
    abbrev pub IsScorable : WerCorpusCase C → Type 0
    IsScorable x =
        (is_blank x.id ≡ false)
        × (0 < reference_count x)
        × (edit_path_bytes * ((reference_count x + 1) * (hypothesis_count x + 1)) ≤ isize_max)

    -- The words of all references, and of all texts.
    abbrev pub all_reference_words : List (WerCorpusCase C) → ℕ
    all_reference_words [] = 0
    all_reference_words (x ∷ xs) = reference_count x + all_reference_words xs

    abbrev pub all_words : List (WerCorpusCase C) → ℕ
    all_words [] = 0
    all_words (x ∷ xs) = reference_count x + hypothesis_count x + all_words xs

    -- The score of a case: its edit path, counted, and the edits for each word of the reference.
    pub record IsScoreOf (x : WerCorpusCase C) (score : WerScore D) : Type 0 where
      pub found : EditPath
      pub is_found :
          edit_path same (words_of x.expected_transcript) (words_of x.recognized_transcript)
          ≡ ok found
      pub substitutions : score.counts.substitutions ≡ found.substitutions
      pub insertions : score.counts.insertions ≡ found.insertions
      pub deletions : score.counts.deletions ≡ found.deletions
      pub reference_words : score.counts.reference_words ≡ reference_count x
      pub rate : score.wer ≡ ratio (edits score.counts) (reference_count x)

    -- Scores of the cases, in their order.
    abbrev pub Scores : List (WerCorpusCase C) → List (WerCorpusCaseScore D) → Type 0
    Scores [] [] = Unit {0}
    Scores (x ∷ xs) (s ∷ ss) = (s.id ≡ x.id) × IsScoreOf x s.score × Scores xs ss
    Scores _ _ = ⊥

    wer_score_ok :
        (x : WerCorpusCase C)
        → IsScorable x
        → reference_count x + hypothesis_count x < usize_range
        → (score : WerScore D) × (wer_score ratio to_lowercase is_alphanumeric space
              split_whitespace same is_blank x.expected_transcript x.recognized_transcript
            ≡ ok score)
          × IsScoreOf x score
          × (edits score.counts ≤ reference_count x + hypothesis_count x)
    unfolding wer_score wer_edit_counts
    wer_score_ok x (_, some_words, fits) few =
        let expected : List W = words_of x.expected_transcript in
        let recognized : List W = words_of x.recognized_transcript in
        let p : EditPath = path same expected recognized (length expected) (length recognized) in
        let not_none : is_empty expected ≡ false = not_empty expected some_words in
        let c : WerEditCounts = into_counts p (length expected) in
        let bound : errors p ≤ length expected + length recognized =
          path_errors-bound same expected recognized (length expected) (length recognized) in
        let made = edit_path_matches_path same expected recognized fits in
        (
          record { counts = c; wer = ratio (edits c) c.reference_words },
          rw (not_none, made, wer_edit_counts) (from_counts_ok c some_words (omega arith)),
          record {
            found = p;
            is_found = made;
            substitutions = refl;
            insertions = refl;
            deletions = refl;
            reference_words = refl;
            rate = refl;
          },
          bound,
        )
      where
        not_empty : (ws : List W) → 0 < length ws → is_empty ws ≡ false
        not_empty [] h = absurd (omega arith)
        not_empty (w ∷ ws) h = refl

    score_cases_ok :
        (cases : List (WerCorpusCase C)) (start : WerEditCounts)
        → All IsScorable cases
        → edits start + all_words cases < usize_range
        → start.reference_words + all_reference_words cases < usize_range
        → (scores : List (WerCorpusCaseScore D)) × (c : WerEditCounts) × (score_cases ratio
              to_lowercase is_alphanumeric space split_whitespace same is_blank cases start
            ≡ ok (scores, c))
          × Scores cases scores
          × IsTotal start scores c
          × (edits c < usize_range)
          × (c.reference_words ≡ start.reference_words + all_reference_words cases)
    unfolding score_cases
    score_cases_ok [] start h few few_words = (
      [],
      start,
      refl,
      tt,
      record {
        substitutions = omega arith;
        insertions = omega arith;
        deletions = omega arith;
        reference_words = omega arith;
      },
      omega arith,
      omega arith,
    )
    score_cases_ok (x ∷ xs) start (scorable, others) few few_words =
        let (score, scored, good, bound) = wer_score_ok x scorable (omega arith) in
        let (sum, added, s) =
          add_assign_ok start score.counts (omega arith) (omega (arith, good.reference_words)) in
        let (scores, c, rest, all_good, t, small, words) =
          score_cases_ok xs sum others
            (omega (arith, s.substitutions, s.insertions, s.deletions, bound))
            (omega (arith, s.reference_words, good.reference_words)) in
        (
          record { id = x.id; score = score } ∷ scores,
          c,
          rw (scorable.0, scored, ◌>>=◌, added, rest, score_cases) refl,
          (refl, good, all_good),
          record {
            substitutions = omega (arith, t.substitutions, s.substitutions);
            insertions = omega (arith, t.insertions, s.insertions);
            deletions = omega (arith, t.deletions, s.deletions);
            reference_words = omega (arith, t.reference_words, s.reference_words);
          },
          small,
          omega (arith, words, s.reference_words, good.reference_words),
        )

    -- The conditions: there is a case; each case has an id, a reference with a word and a table that can
    -- be allocated; so can the list of the scores; and the words of all texts together fit a `usize`.
    -- Then the corpus is scored. The report has the cases in their order with their ids. The counts of
    -- each are those of its edit path, and its rate is its edits for the words of its reference. The
    -- aggregate has in each field the sum over the cases, and its rate is that of the sums.
    pub score_wer_corpus_adds_up :
        (cases : List (WerCorpusCase C))
        → 0 < length cases
        → All IsScorable cases
        → case_score_bytes * length cases ≤ isize_max
        → all_words cases < usize_range
        → (report : WerCorpusReport D) × (score_wer_corpus ratio to_lowercase is_alphanumeric space
              split_whitespace same is_blank cases
            ≡ ok report)
          × Scores cases report.cases
          × IsTotal no_counts report.cases report.aggregate.counts
          × (report.aggregate.counts.reference_words ≡ all_reference_words cases)
          × (report.aggregate.wer
              ≡ ratio (edits report.aggregate.counts) (all_reference_words cases))
    unfolding score_wer_corpus
    score_wer_corpus_adds_up [] h k room few = absurd (omega arith)
    score_wer_corpus_adds_up (x ∷ xs) h k room few =
        let few_words : all_reference_words (x ∷ xs) < usize_range =
          omega (arith, fewer (x ∷ xs)) in
        let (scores, c, scored, good, t, small, words) =
          score_cases_ok (x ∷ xs) no_counts k (omega arith) (omega arith) in
        let some_words : 0 < c.reference_words = omega (arith, words, (k.0).1) in
        let sum : c.reference_words ≡ all_reference_words (x ∷ xs) = omega arith in
        let allowed : allocated (case_score_bytes * length (x ∷ xs)) (tt {0}) ≡ ok tt =
          ground arith in
        (
          record {
            cases = scores;
            aggregate = record { counts = c; wer = ratio (edits c) c.reference_words };
          },
          rw (allowed, ◌>>=◌, scored, from_counts_ok c some_words small, score_wer_corpus) refl,
          good,
          t,
          sum,
          ap (ratio (edits c)) sum,
        )
      where
        fewer : (ys : List (WerCorpusCase C)) → all_reference_words ys ≤ all_words ys
        fewer [] = omega arith
        fewer (y ∷ ys) = omega (arith, fewer ys)
