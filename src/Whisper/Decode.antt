-- ===== src/Whisper/Decode.antt =====
-- crates/runtime/src/whisper/transcribe.rs: the transcription of one window of audio. The Whisper
-- model and the log-mel features enter as the record `WhisperModel`; whether room for the output is
-- found (`try_reserve_exact`) is the parameter `can_reserve`.
pub mod Outputs
use ocelotl.Common.{
  ℕ, zero, suc, Bool, List, [], ◌∷◌, ◌++◌, ltb, ◌==◌, if◌then◌else◌, length, is_empty,
}
use ocelotl.Core.Errors.{Result, ok, err, ◌>>=◌, ◌>>◌, invalid_request_err, runtime_err}
use ocelotl.Core.Limits.{RequestLimits, validate_generation, validate_audio_samples}
use ocelotl.Core.Tokens.{TokenId}
use ocelotl.Whisper.Audio.{
  AudioMetadata, validate_audio_metadata, validate_audio_samples_for_context,
}
use ocelotl.Whisper.Tokens.{WhisperDecodeMask}
use ocelotl.Whisper.Sampling.{masked_greedy_sample}

-- `encode` is `log_mel_spectrogram_with_limits` followed by `encode_audio_features`.
pub record WhisperModel (F Audio State : Type 0) : Type 0 where
  pub audio_context_length : ℕ
  pub text_context_length : ℕ
  pub encode : List F → AudioMetadata → RequestLimits → Result Audio
  pub prepare_decoder_state_from_audio : Audio → List TokenId → Result State
  pub next_token_logits : State → List F
  pub append_decoder_token_from_audio : Audio → State → TokenId → Result State

pub record WhisperDecodeRequest : Type 0 where
  pub decoder_prompt_tokens : List TokenId
  pub max_new_tokens : ℕ
  pub decode_mask : WhisperDecodeMask
  pub stop_token : TokenId

pub record WhisperTranscriptionRequest (F : Type 0) : Type 0 where
  pub audio_samples : List F
  pub audio_metadata : AudioMetadata
  pub decode : WhisperDecodeRequest

pub record WhisperTranscriptionResponse (F : Type 0) : Type 0 where
  pub tokens : List TokenId
  pub logits : List F

unfoldable pub validate_whisper_audio_size : ℕ → ℕ → RequestLimits → Result (Unit {0})
validate_whisper_audio_size audio_samples context limits = do
  validate_audio_samples_for_context audio_samples context
  validate_audio_samples limits audio_samples

module _ {F Audio State : Type 0} (gt : F → F → Bool) (model : WhisperModel F Audio State) where
  unfoldable pub validate_whisper_decode_request :
      WhisperDecodeRequest → RequestLimits → Result (Unit {0})
  validate_whisper_decode_request request limits =
      if is_empty request.decoder_prompt_tokens
      then err (invalid_request_err "decoder_prompt_tokens" "must contain at least one token")
      else (if request.max_new_tokens == 0
          then err (invalid_request_err "max_new_tokens" "must be greater than zero")
          else do
            total ←
                validate_generation limits (length request.decoder_prompt_tokens)
                  request.max_new_tokens
            if ltb model.text_context_length total
                then err (
                    invalid_request_err "decoder_context_length"
                      "decoder_prompt_tokens ({}) + max_new_tokens ({}) = {} exceeds text_context_length ({})")
                else ok tt)

  unfoldable pub validate_whisper_transcription_request :
      WhisperTranscriptionRequest F → RequestLimits → Result (Unit {0})
  validate_whisper_transcription_request request limits =
      if is_empty request.audio_samples
      then err (invalid_request_err "audio_samples" "must contain at least one sample")
      else do
        validate_audio_metadata request.audio_metadata
        validate_whisper_audio_size (length request.audio_samples) model.audio_context_length limits

  unfoldable pub prepare_whisper_transcription :
      WhisperTranscriptionRequest F → RequestLimits → Result Audio
  prepare_whisper_transcription request limits = do
    validate_whisper_transcription_request request limits
    model.encode request.audio_samples request.audio_metadata limits

  -- The loop, with the number of rounds that are left.
  unfoldable pub decode_loop :
      ℕ
      → Audio
      → WhisperDecodeRequest
      → State
      → List TokenId
      → List F
      → Result (WhisperTranscriptionResponse F)
  decode_loop zero audio request state tokens logits =
      ok (record { tokens = tokens; logits = logits })
  decode_loop (suc rounds) audio request state tokens logits = do
    let new_logits = model.next_token_logits state
    next ← masked_greedy_sample gt new_logits request.decode_mask
    let new_tokens = tokens ++ next ∷ []
    if next == request.stop_token
        then ok (record { tokens = new_tokens; logits = new_logits })
        else (if ltb (length new_tokens) request.max_new_tokens
            then (model.append_decoder_token_from_audio audio state next >>= λ new_state.
                decode_loop rounds audio request new_state new_tokens new_logits)
            else decode_loop rounds audio request state new_tokens new_logits)

  unfoldable pub decode_whisper_transcription :
      (ℕ → Bool)
      → Audio
      → WhisperDecodeRequest
      → RequestLimits
      → Result (WhisperTranscriptionResponse F)
  decode_whisper_transcription can_reserve audio request limits = do
    validate_whisper_decode_request request limits
    state ← model.prepare_decoder_state_from_audio audio request.decoder_prompt_tokens
    if can_reserve request.max_new_tokens
        then decode_loop request.max_new_tokens audio request state [] []
        else err (runtime_err "failed to reserve {} Whisper output tokens: {source}")

  unfoldable pub transcribe_whisper :
      (ℕ → Bool)
      → WhisperTranscriptionRequest F
      → RequestLimits
      → Result (WhisperTranscriptionResponse F)
  transcribe_whisper can_reserve request limits = do
    validate_whisper_decode_request request.decode limits
    audio ← prepare_whisper_transcription request limits
    decode_whisper_transcription can_reserve audio request.decode limits
