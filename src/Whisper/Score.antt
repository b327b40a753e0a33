-- ===== src/Whisper/Score.antt =====
-- crates/models/src/whisper/wer.rs: the scores of transcripts. A transcript is a list of characters of
-- a type `C`. What the standard library answers is a parameter: the lower case of a character, whether
-- it is alphanumeric, the words of a text, and whether an id is blank. A rate is of a type `D` that
-- stands for `f32`, with its division as the parameter `ratio`.
pub mod Corpus
mod Tests
use ocelotl.Common.{
  ℕ, ◌+◌, ◌*◌, Bool, true, false, not, ◌&&◌, Option, none, some, List, [], ◌∷◌, ◌++◌, String, ◌==◌,
  if◌then◌else◌, length, is_empty,
}
use ocelotl.Core.Panics.{or_overflow, isize_max, allocated}
use ocelotl.Core.Errors.{Result, ok, err, panic, ◌>>=◌, invalid_request_err}
use ocelotl.Whisper.Wer.{WerEditCounts, into_counts, edit_path}

-- `WerEditCounts::errors`.
abbrev pub count_errors : WerEditCounts → Result ℕ
count_errors c = do
  most ← or_overflow (c.substitutions + c.insertions)
  or_overflow (most + c.deletions)

abbrev pub no_counts : WerEditCounts
no_counts = record { substitutions = 0; insertions = 0; deletions = 0; reference_words = 0 }

unfoldable pub add_assign : WerEditCounts → WerEditCounts → Result WerEditCounts
add_assign a b = do
  substitutions ← or_overflow (a.substitutions + b.substitutions)
  insertions ← or_overflow (a.insertions + b.insertions)
  deletions ← or_overflow (a.deletions + b.deletions)
  reference_words ← or_overflow (a.reference_words + b.reference_words)
  ok (record {
    substitutions = substitutions;
    insertions = insertions;
    deletions = deletions;
    reference_words = reference_words;
  })

pub record WerScore (D : Type 0) : Type 0 where
  pub counts : WerEditCounts
  pub wer : D

pub record WerCorpusCase (C : Type 0) : Type 0 where
  pub id : String
  pub expected_transcript : List C
  pub recognized_transcript : List C

pub record WerCorpusCaseScore (D : Type 0) : Type 0 where
  pub id : String
  pub score : WerScore D

-- The size of a `WerCorpusCaseScore`.
abbrev pub case_score_bytes : ℕ
case_score_bytes = 64

pub record WerCorpusReport (D : Type 0) : Type 0 where
  pub cases : List (WerCorpusCaseScore D)
  pub aggregate : WerScore D

module _ {D : Type 0} (ratio : ℕ → ℕ → D) where
  unfoldable pub word_error_rate : WerEditCounts → Result (Option D)
  word_error_rate c =
      if c.reference_words == 0
      then ok none
      else (count_errors c >>= λ edits. ok (some (ratio edits c.reference_words)))

  -- `expect` panics where there is no rate.
  unfoldable pub from_counts : WerEditCounts → Result (WerScore D)
  from_counts c = word_error_rate c >>= λ rate. elim rate [
    | none ↦ panic
    | some wer ↦ ok (record { counts = c; wer = wer })
  ]

  module _ {C W : Type 0} (to_lowercase : C → List C) (is_alphanumeric : C → Bool) (space : C)
      (split_whitespace : List C → List W) (same : W → W → Bool) (is_blank : String → Bool) where
    -- The loop over the lower case of one character: what is written, and whether a space is pending.
    unfoldable pub push_lower : List C → List C × Bool → List C × Bool
    push_lower [] state = state
    push_lower (lower ∷ rest) (normalized, pending_space) =
        if is_alphanumeric lower
        then push_lower rest (
          (if pending_space && not (is_empty normalized)
                then (normalized ++ (space ∷ []))
                else normalized)
              ++ (lower ∷ []),
          false,
        )
        else push_lower rest (normalized, true)

    unfoldable pub push_chars : List C → List C × Bool → List C × Bool
    push_chars [] state = state
    push_chars (ch ∷ chars) state = push_chars chars (push_lower (to_lowercase ch) state)

    unfoldable pub normalize_transcript : List C → List C
    normalize_transcript transcript = (push_chars transcript ([], false)).0

    unfoldable pub normalized_words : List C → List W
    normalized_words transcript = split_whitespace (normalize_transcript transcript)

    unfoldable pub wer_edit_counts : List C → List C → Result WerEditCounts
    wer_edit_counts expected recognized =
        if is_empty (normalized_words expected)
        then err (
            invalid_request_err "reference_transcript"
              "WER reference transcript must contain at least one word after normalization")
        else (edit_path same (normalized_words expected) (normalized_words recognized) >>= λ p.
            ok (into_counts p (length (normalized_words expected))))

    unfoldable pub wer_score : List C → List C → Result (WerScore D)
    wer_score expected recognized = wer_edit_counts expected recognized >>= from_counts

    -- The loop over the cases: their scores, and the sum of the counts.
    unfoldable pub score_cases :
        List (WerCorpusCase C)
        → WerEditCounts
        → Result (List (WerCorpusCaseScore D) × WerEditCounts)
    score_cases [] aggregate = ok ([], aggregate)
    score_cases (case ∷ cases) aggregate =
        if is_blank case.id
        then err
            (invalid_request_err "wer_corpus.cases[].id" "WER corpus case id must be non-empty")
        else (wer_score case.expected_transcript case.recognized_transcript >>= λ score.
            add_assign aggregate score.counts >>= λ sum. score_cases cases sum >>= λ rest.
            ok (record { id = case.id; score = score } ∷ rest.0, rest.1))

    unfoldable pub score_wer_corpus : List (WerCorpusCase C) → Result (WerCorpusReport D)
    score_wer_corpus cases =
        if is_empty cases
        then err
            (invalid_request_err "wer_corpus.cases" "WER corpus must contain at least one case")
        else (allocated {A = Unit {0}} (case_score_bytes * length cases) tt >>= λ _.
            score_cases cases no_counts >>= λ scored. from_counts (scored.1) >>= λ aggregate.
            ok (record { cases = scored.0; aggregate = aggregate }))
