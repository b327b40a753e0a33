-- ===== src/Whisper/Segments.antt =====
-- crates/tokenizer/src/whisper.rs: the segments between timestamp tokens. Seconds are of an abstract
-- type `D` that stands for `f32`; `seconds` is the product of an offset and the step of 20 ms.
pub mod RoundTrip
use ocelotl.Common.{
  ℕ, ◌-◌, Bool, Option, none, some, List, [], ◌∷◌, ◌++◌, String, leb, ◌==◌, if◌then◌else◌, is_empty,
}
use ocelotl.Core.Errors.{OcelotlError, Result, ok, err, panic, ◌>>=◌}
use ocelotl.Core.Tokens.{TokenId}
use ocelotl.Whisper.Tokens.{WhisperStartupTokens}

pub record WhisperTimestampedSegment (D : Type 0) : Type 0 where
  pub start_seconds : D
  pub end_seconds : D
  pub text_tokens : List TokenId

abbrev pub tokenizer_policy_error : String → OcelotlError
tokenizer_policy_error m = OcelotlError.tokenizer (record { message = m; source = none })

-- `Option::expect`.
abbrev pub expect : {A : Type 0} → Option A → Result A
expect none = panic
expect (some a) = ok a

abbrev pub at_end :
    {D : Type 0}
    → List (WhisperTimestampedSegment D)
    → List TokenId
    → Result (List (WhisperTimestampedSegment D))
at_end segments text_tokens =
    if is_empty text_tokens
    then ok segments
    else err
        (tokenizer_policy_error "timestamped Whisper segment has text without an end timestamp")

module _ {D : Type 0} (seconds : ℕ → D) (tokens : WhisperStartupTokens) where
  unfoldable pub timestamp_seconds : TokenId → Option D
  timestamp_seconds token =
      if leb tokens.first_timestamp token
      then some (seconds (token - tokens.first_timestamp))
      else none

  -- A timestamp token ends the segment that is open, if it has text.
  unfoldable pub close_segment :
      List (WhisperTimestampedSegment D)
      → Option TokenId
      → List TokenId
      → TokenId
      → Result (List (WhisperTimestampedSegment D))
  close_segment segments none text_tokens token = ok segments
  close_segment segments (some start_token) text_tokens token =
      if is_empty text_tokens then ok segments else do
        start_seconds ← expect (timestamp_seconds start_token)
        end_seconds ← expect (timestamp_seconds token)
        ok (
            segments
            ++ record {
              start_seconds = start_seconds;
              end_seconds = end_seconds;
              text_tokens = text_tokens;
            }
              ∷ [])

  -- The text that stays open: none where the segment was closed.
  abbrev pub left_open : Option TokenId → List TokenId → List TokenId
  left_open none text_tokens = text_tokens
  left_open (some start_token) text_tokens = []

  unfoldable pub parse_loop :
      List TokenId
      → List (WhisperTimestampedSegment D)
      → Option TokenId
      → List TokenId
      → Result (List (WhisperTimestampedSegment D))
  parse_loop [] segments active_start text_tokens = at_end segments text_tokens
  parse_loop (token ∷ sequence) segments active_start text_tokens =
      if token == tokens.end_of_text
      then at_end segments text_tokens
      else elim (timestamp_seconds token) [
        | some _ ↦ close_segment segments active_start text_tokens token >>= λ closed.
            parse_loop sequence closed (some token) (left_open active_start text_tokens)
        | none ↦ elim active_start [
          | none ↦ err (
              tokenizer_policy_error
                "timestamped Whisper segment text token {:?} appeared before a start timestamp")
          | some start_token ↦
              parse_loop sequence segments (some start_token) (text_tokens ++ token ∷ [])
        ]
      ]

  unfoldable pub parse_whisper_timestamped_segments :
      List TokenId → Result (List (WhisperTimestampedSegment D))
  parse_whisper_timestamped_segments sequence = parse_loop sequence [] none []
