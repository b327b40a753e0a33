-- ===== src/Whisper/Audio.antt =====
-- crates/models/src/whisper/audio.rs: what is asked of audio before it is processed. A number that
-- an error carries as text is left out.
use ocelotl.Common.{ℕ, some, [], ◌∷◌, String, ltb, ◌==◌, if◌then◌else◌}
use ocelotl.Core.Errors.{OcelotlError, Result, ok, err, ◌>>=◌, ok_or, invalid_request_err}
use ocelotl.Core.Words.{checked_mul}
use ocelotl.Core.PagedLayout.{and_then}

abbrev pub sample_rate : ℕ
sample_rate = 16_000

abbrev hop_length : ℕ
hop_length = 160

pub record AudioMetadata : Type 0 where
  pub sample_rate_hz : ℕ
  pub channels : ℕ

abbrev unsupported_err : String → String → OcelotlError
unsupported_err feature value =
    OcelotlError.unsupported
      (record { feature = feature; requested = some "{}"; supported = value ∷ [] })

unfoldable pub validate_audio_metadata : AudioMetadata → Result (Unit {0})
validate_audio_metadata m =
    if m.sample_rate_hz == sample_rate
    then (if m.channels == 1 then ok tt else err (unsupported_err "whisper_audio.channels" "1"))
    else err (unsupported_err "whisper_audio.sample_rate_hz" "16000")

unfoldable pub max_audio_samples_for_context : ℕ → Result ℕ
max_audio_samples_for_context context =
    if context == 0
    then err (invalid_request_err "audio_context_length" "must be greater than zero")
    else ok_or (and_then (checked_mul context 2) (λ frames. checked_mul frames hop_length)) (
        invalid_request_err "audio_context_length"
          "Whisper audio context sample ceiling overflows usize")

unfoldable pub validate_audio_samples_for_context : ℕ → ℕ → Result (Unit {0})
validate_audio_samples_for_context audio_samples context = do
  max_audio_samples ← max_audio_samples_for_context context
  if ltb max_audio_samples audio_samples
      then err (
          invalid_request_err "audio_samples"
            "audio sample count {audio_samples} exceeds {max_audio_samples} derived from audio_context_length {audio_context_length}")
      else ok tt
