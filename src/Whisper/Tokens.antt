-- ===== src/Whisper/Tokens.antt =====
-- crates/tokenizer/src/whisper.rs: the startup tokens, the prompts and the decode mask.
use ocelotl.Common.{Bool, true, false, ◌||◌, ◌&&◌, List, [], ◌∷◌, ◌++◌, leb, ◌==◌, if◌then◌else◌}
use ocelotl.Core.Tokens.{TokenId}

pub data WhisperTokenRole : Type 0 where
  end_of_text start_of_transcript language transcribe_task no_timestamps first_timestamp :
      WhisperTokenRole

pub record WhisperStartupTokens : Type 0 where
  pub end_of_text : TokenId
  pub start_of_transcript : TokenId
  pub language : TokenId
  pub transcribe_task : TokenId
  pub no_timestamps : TokenId
  pub first_timestamp : TokenId

abbrev pub role_token : WhisperStartupTokens → WhisperTokenRole → TokenId
role_token s WhisperTokenRole.end_of_text = s.end_of_text
role_token s WhisperTokenRole.start_of_transcript = s.start_of_transcript
role_token s WhisperTokenRole.language = s.language
role_token s WhisperTokenRole.transcribe_task = s.transcribe_task
role_token s WhisperTokenRole.no_timestamps = s.no_timestamps
role_token s WhisperTokenRole.first_timestamp = s.first_timestamp

-- `without` is the source's `NoTimestamps`, `with_times` its `Timestamps`.
pub data WhisperTimestampMode : Type 0 where
  without with_times : WhisperTimestampMode

abbrev is_without : WhisperTimestampMode → Bool
is_without without = true
is_without with_times = false

abbrev pub transcribe_prompt : WhisperStartupTokens → WhisperTimestampMode → List TokenId
transcribe_prompt s mode =
    let prompt = s.start_of_transcript ∷ s.language ∷ s.transcribe_task ∷ [] in
    if is_without mode then prompt ++ s.no_timestamps ∷ [] else prompt

abbrev pub transcribe_no_timestamps_prompt : WhisperStartupTokens → List TokenId
transcribe_no_timestamps_prompt s = transcribe_prompt s without

abbrev pub english_transcribe_prompt : WhisperStartupTokens → WhisperTimestampMode → List TokenId
english_transcribe_prompt s without = s.start_of_transcript ∷ s.no_timestamps ∷ []
english_transcribe_prompt s with_times = s.start_of_transcript ∷ []

abbrev pub whisper_english_transcribe_tokens : WhisperStartupTokens
whisper_english_transcribe_tokens = record {
  end_of_text = 50_256;
  start_of_transcript = 50_257;
  language = 50_258;
  transcribe_task = 50_358;
  no_timestamps = 50_362;
  first_timestamp = 50_363;
}

abbrev pub whisper_multilingual_english_transcribe_tokens : WhisperStartupTokens
whisper_multilingual_english_transcribe_tokens = record {
  end_of_text = 50_257;
  start_of_transcript = 50_258;
  language = 50_259;
  transcribe_task = 50_359;
  no_timestamps = 50_363;
  first_timestamp = 50_364;
}

pub data WhisperTokenMaskDecision : Type 0 where
  allow suppress : WhisperTokenMaskDecision

pub record WhisperDecodeMask : Type 0 where
  pub tokens : WhisperStartupTokens
  pub suppress_timestamps : Bool

abbrev pub transcribe : WhisperStartupTokens → WhisperTimestampMode → WhisperDecodeMask
transcribe s mode = record { tokens = s; suppress_timestamps = is_without mode }

abbrev pub transcribe_without_timestamps : WhisperStartupTokens → WhisperDecodeMask
transcribe_without_timestamps s = transcribe s without

abbrev pub transcribe_with_timestamps : WhisperStartupTokens → WhisperDecodeMask
transcribe_with_timestamps s = transcribe s with_times

abbrev pub is_prompt_special : WhisperDecodeMask → TokenId → Bool
is_prompt_special m t =
    t == m.tokens.start_of_transcript
    || t == m.tokens.language
    || t == m.tokens.transcribe_task
    || t == m.tokens.no_timestamps

unfoldable pub mask_token : WhisperDecodeMask → TokenId → WhisperTokenMaskDecision
mask_token m t =
    if is_prompt_special m t
    then suppress
    else (if m.suppress_timestamps && leb m.tokens.first_timestamp t then suppress else allow)

-- `mask_token(..) == Suppress`, negated.
abbrev pub is_allowed : WhisperTokenMaskDecision → Bool
is_allowed allow = true
is_allowed suppress = false
