-- ===== src/Whisper/Score/Tests.antt =====
-- Two short texts, and a corpus of two cases.
use ocelotl.Common.{
  ℕ, ◌≤◌, ◌≡◌, refl, Bool, false, List, [], ◌∷◌, String, ◌==◌, arith, ltb, if◌then◌else◌,
}
use ocelotl.Core.Errors.{ok}
use ocelotl.Whisper.Wer.{EditPath, errors, edit_path}
use ocelotl.Whisper.Wer.Table.{path}
use ocelotl.Whisper.Wer.Table.Loops.{edit_path_matches_path}
use ocelotl.Whisper.Wer.Least.{Script, edit_path_least}
use ocelotl.Whisper.Score
use ocelotl.Whisper.Score.{
  WerCorpusCase, WerCorpusReport, no_counts, score_wer_corpus, normalized_words,
}
use ocelotl.Whisper.Score.Corpus.{
  Scores, IsTotal, edits, all_reference_words, score_wer_corpus_adds_up,
}

abbrev spoken : List ℕ
spoken = 1 ∷ 2 ∷ 3 ∷ 4 ∷ []

abbrev heard : List ℕ
heard = 1 ∷ 3 ∷ 5 ∷ []

edit_path_matches_path_example : edit_path ◌==◌ spoken heard ≡ ok (path ◌==◌ spoken heard 4 3)
edit_path_matches_path_example = edit_path_matches_path ◌==◌ spoken heard (omega arith)

edit_path_least_example :
    (p : EditPath) × (edit_path ◌==◌ spoken heard ≡ ok p)
    × Script ◌==◌ spoken heard 4 3 p
    × ((q : EditPath) → Script ◌==◌ spoken heard 4 3 q → errors p ≤ errors q)
edit_path_least_example = edit_path_least ◌==◌ spoken heard (omega arith)

-- Characters are numbers, those above 9 are letters, and each character of a text is a word.
abbrev lower : ℕ → List ℕ
lower ch = ch ∷ []

abbrev is_letter : ℕ → Bool
is_letter ch = ltb 9 ch

abbrev letters : List ℕ → List ℕ
letters [] = []
letters (x ∷ xs) = if is_letter x then (x ∷ letters xs) else letters xs

abbrev no_blank : String → Bool
no_blank id = false

abbrev corpus : List (WerCorpusCase ℕ)
corpus =
    record { id = "a"; expected_transcript = 10 ∷ 0 ∷ 11 ∷ []; recognized_transcript = 10 ∷ [] }
    ∷ record { id = "b"; expected_transcript = 12 ∷ []; recognized_transcript = 13 ∷ 12 ∷ [] }
    ∷ []

abbrev pair : ℕ → ℕ → ℕ × ℕ
pair a b = (a, b)

score_wer_corpus_adds_up_example :
    (report : WerCorpusReport (ℕ × ℕ)) × (score_wer_corpus pair lower is_letter 0 letters ◌==◌
        no_blank corpus
      ≡ ok report)
    × Scores pair lower is_letter 0 letters ◌==◌ no_blank corpus report.cases
    × IsTotal pair no_counts report.cases report.aggregate.counts
    × (report.aggregate.counts.reference_words
        ≡ all_reference_words pair lower is_letter 0 letters ◌==◌ no_blank corpus)
    × (report.aggregate.wer
        ≡ pair
            (edits report.aggregate.counts)
            (all_reference_words pair lower is_letter 0 letters ◌==◌ no_blank corpus))
unfolding normalized_words Score.normalize_transcript Score.push_chars Score.push_lower
score_wer_corpus_adds_up_example =
    score_wer_corpus_adds_up pair lower is_letter 0 letters ◌==◌ no_blank corpus (omega arith)
      ((refl, omega arith, omega arith), ((refl, omega arith, omega arith), tt)) (omega arith)
      (omega arith)
