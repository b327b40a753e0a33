-- ===== src/Whisper/Segments/RoundTrip.antt =====
-- Segments written out as tokens, and parsed again.
use mathlib.Core.List.{append-nil, append_assoc}
use ocelotl.Common.{
  ℕ, ◌-◌, ◌≤◌, ◌<◌, ◌≡◌, ◌≢◌, refl, ap, ◌∙◌, Option, none, some, List, [], ◌∷◌, ◌++◌, map, All,
  arith,
}
use ocelotl.Core.Errors.{ok}
use ocelotl.Core.Tokens.{TokenId}
use ocelotl.Whisper.Tokens.{WhisperStartupTokens}
use ocelotl.Whisper.Segments.{
  WhisperTimestampedSegment, timestamp_seconds, close_segment, parse_loop,
  parse_whisper_timestamped_segments,
}

-- A segment as tokens: the first token of its text, the others, and the timestamps around it.
pub record Spoken : Type 0 where
  pub start : TokenId
  pub first : TokenId
  pub others : List TokenId
  pub stop : TokenId

abbrev pub written : List Spoken → List TokenId
written [] = []
written (s ∷ ss) = s.start ∷ s.first ∷ (s.others ++ s.stop ∷ written ss)

-- An ordinary token: neither a timestamp nor the end of the text.
abbrev pub IsText : WhisperStartupTokens → TokenId → Type 0
IsText tokens t = (t < tokens.first_timestamp) × (t ≢ tokens.end_of_text)

abbrev pub IsWellSpoken : WhisperStartupTokens → Spoken → Type 0
IsWellSpoken tokens s =
    (tokens.first_timestamp ≤ s.start)
    × (tokens.first_timestamp ≤ s.stop)
    × IsText tokens s.first
    × All (IsText tokens) s.others

module _ {D : Type 0} (seconds : ℕ → D) (tokens : WhisperStartupTokens) where
  abbrev pub segment : Spoken → WhisperTimestampedSegment D
  segment s = record {
    start_seconds = seconds (s.start - tokens.first_timestamp);
    end_seconds = seconds (s.stop - tokens.first_timestamp);
    text_tokens = s.first ∷ s.others;
  }

  text_step :
      (t : TokenId) (rest : List TokenId) (segs : List (WhisperTimestampedSegment D)) (a : TokenId)
      (text : List TokenId)
      → IsText tokens t
      → parse_loop seconds tokens (t ∷ rest) segs (some a) text
        ≡ parse_loop seconds tokens rest segs (some a) (text ++ t ∷ [])
  unfolding parse_loop timestamp_seconds
  text_step t rest segs a text h = ground arith

  text_run :
      (ts rest : List TokenId) (segs : List (WhisperTimestampedSegment D)) (a : TokenId)
      (text : List TokenId)
      → All (IsText tokens) ts
      → parse_loop seconds tokens (ts ++ rest) segs (some a) text
        ≡ parse_loop seconds tokens rest segs (some a) (text ++ ts)
  text_run [] rest segs a text h = rw (append-nil text) refl
  text_run (t ∷ ts) rest segs a text h =
      text_step t (ts ++ rest) segs a text h.0
      ∙ text_run ts rest segs a (text ++ t ∷ []) h.1
      ∙ ap (parse_loop seconds tokens rest segs (some a)) (append_assoc text (t ∷ []) ts)

  start_step :
      (t : TokenId) (rest : List TokenId) (segs : List (WhisperTimestampedSegment D))
      (active : Option TokenId)
      → tokens.end_of_text < tokens.first_timestamp
      → tokens.first_timestamp ≤ t
      → parse_loop seconds tokens (t ∷ rest) segs active []
        ≡ parse_loop seconds tokens rest segs (some t) []
  unfolding parse_loop timestamp_seconds close_segment
  start_step t rest segs none e h = ground arith
  start_step t rest segs (some a) e h = ground arith

  stop_step :
      (s : Spoken) (rest : List TokenId) (segs : List (WhisperTimestampedSegment D))
      → tokens.end_of_text < tokens.first_timestamp
      → tokens.first_timestamp ≤ s.start
      → tokens.first_timestamp ≤ s.stop
      → parse_loop seconds tokens (s.stop ∷ rest) segs (some s.start) (s.first ∷ s.others)
        ≡ parse_loop seconds tokens rest (segs ++ segment s ∷ []) (some s.stop) []
  unfolding parse_loop timestamp_seconds close_segment
  stop_step s rest segs e h k = ground arith

  written_run :
      (ss : List Spoken) (segs : List (WhisperTimestampedSegment D)) (active : Option TokenId)
      → tokens.end_of_text < tokens.first_timestamp
      → All (IsWellSpoken tokens) ss
      → parse_loop seconds tokens (written ss) segs active [] ≡ ok (segs ++ map segment ss)
  unfolding parse_loop
  written_run [] segs active e h = rw (append-nil segs) refl
  written_run (s ∷ ss) segs active e ((a, b, c, d), h) =
      start_step s.start (s.first ∷ (s.others ++ s.stop ∷ written ss)) segs active e a
      ∙ text_run (s.first ∷ s.others) (s.stop ∷ written ss) segs s.start [] (c, d)
      ∙ stop_step s (written ss) segs e a b
      ∙ written_run ss (segs ++ segment s ∷ []) (some s.stop) e h
      ∙ ap ok (append_assoc segs (segment s ∷ []) (map segment ss))

  -- Where the end of the text is no timestamp token: segments written out as tokens, each between
  -- two timestamp tokens and with ordinary tokens for its text, one at least, are parsed as those
  -- segments, in order, with the seconds of their timestamps.
  pub parse-written :
      (ss : List Spoken)
      → tokens.end_of_text < tokens.first_timestamp
      → All (IsWellSpoken tokens) ss
      → parse_whisper_timestamped_segments seconds tokens (written ss) ≡ ok (map segment ss)
  unfolding parse_whisper_timestamped_segments
  parse-written ss e h = written_run ss [] none e h
