-- ===== src/Whisper/Chunks.antt =====
-- crates/runtime/src/whisper/streaming.rs: the plan of the chunks of a long recording. Seconds are
-- of an abstract type `D` that stands for `f64`, with its division as the parameter `quotient`.
-- `none` says that the fuel of the loop ran out; it has one more than the number of samples.
pub mod Coverage
use ocelotl.Common.{
  ℕ, zero, suc, ◌+◌, ◌-◌, Bool, Option, none, some, List, [], ◌∷◌, ◌++◌, min, leb, ◌==◌,
  if◌then◌else◌, length, is_empty,
}
use ocelotl.Core.Errors.{Result, ok, err, panic, ◌>>=◌, ◌>>◌, ok_or, invalid_request_err}
use ocelotl.Core.Words.{checked_add}
use ocelotl.Core.Tokens.{TokenId}
use ocelotl.Whisper.Audio.{AudioMetadata, validate_audio_metadata}

pub record TranscriptionChunkingConfig : Type 0 where
  pub window_samples : ℕ
  pub overlap_samples : ℕ

pub record ChunkedTranscriptionRequest (F : Type 0) : Type 0 where
  pub audio_samples : List F
  pub audio_metadata : AudioMetadata
  pub decoder_prompt_tokens : List TokenId
  pub chunking : TranscriptionChunkingConfig

pub record TranscriptionChunk (D : Type 0) : Type 0 where
  pub index : ℕ
  pub start_sample : ℕ
  pub end_sample : ℕ
  pub start_seconds : D
  pub end_seconds : D
  pub is_last : Bool

-- The subtraction panics where the end lies before the start.
abbrev pub sample_count : {D : Type 0} → TranscriptionChunk D → Result ℕ
sample_count c =
    if leb c.start_sample c.end_sample then ok (c.end_sample - c.start_sample) else panic

unfoldable pub validate_chunk_request :
    {F : Type 0} → ChunkedTranscriptionRequest F → Result (Unit {0})
validate_chunk_request request =
    if is_empty request.audio_samples
    then err (invalid_request_err "audio_samples" "must contain at least one sample")
    else (if request.chunking.window_samples == 0
        then err (invalid_request_err "chunking.window_samples" "must be greater than zero")
        else (if leb request.chunking.window_samples request.chunking.overlap_samples
            then err
                (invalid_request_err "chunking.overlap_samples" "must be less than window_samples")
            else ok tt))

module _ {D : Type 0} (quotient : ℕ → ℕ → D) where
  unfoldable pub seconds_for_samples : ℕ → ℕ → Result D
  seconds_for_samples samples sample_rate_hz =
      if sample_rate_hz == 0
      then err (invalid_request_err "audio_metadata.sample_rate_hz" "must not be zero")
      else ok (quotient samples sample_rate_hz)

  abbrev pub window_seconds : TranscriptionChunkingConfig → ℕ → Result D
  window_seconds c rate = seconds_for_samples c.window_samples rate

  abbrev pub overlap_seconds : TranscriptionChunkingConfig → ℕ → Result D
  overlap_seconds c rate = seconds_for_samples c.overlap_samples rate

  module _ {F : Type 0} where
    -- One chunk, from `start` on.
    unfoldable pub next_chunk :
        ChunkedTranscriptionRequest F → ℕ → ℕ → Result (TranscriptionChunk D)
    next_chunk request index start = do
      window_end ←
          ok_or (checked_add start request.chunking.window_samples)
            (invalid_request_err "chunking.window_samples" "chunk end overflowed")
      let end_sample = min window_end (length request.audio_samples)
      start_seconds ← seconds_for_samples start request.audio_metadata.sample_rate_hz
      end_seconds ← seconds_for_samples end_sample request.audio_metadata.sample_rate_hz
      ok (record {
        index = index;
        start_sample = start;
        end_sample = end_sample;
        start_seconds = start_seconds;
        end_seconds = end_seconds;
        is_last = end_sample == length request.audio_samples;
      })

    unfoldable pub plan_loop :
        ℕ
        → ChunkedTranscriptionRequest F
        → ℕ
        → List (TranscriptionChunk D)
        → Option (Result (List (TranscriptionChunk D)))
    plan_loop zero request start chunks = none
    plan_loop (suc fuel) request start chunks = elim (next_chunk request (length chunks) start) [
      | ok chunk ↦
          if chunk.is_last
          then some (ok (chunks ++ chunk ∷ []))
          else elim (ok_or
              (checked_add start
                (request.chunking.window_samples - request.chunking.overlap_samples))
              (invalid_request_err "chunking.window_samples" "chunk start overflowed")) [
                | ok next ↦ plan_loop fuel request next (chunks ++ chunk ∷ [])
                | err e ↦ some (err e)
                | panic ↦ some panic
              ]
      | err e ↦ some (err e)
      | panic ↦ some panic
    ]

    unfoldable pub plan_transcription_chunks :
        ChunkedTranscriptionRequest F → Option (Result (List (TranscriptionChunk D)))
    plan_transcription_chunks request =
        elim (validate_audio_metadata request.audio_metadata >> validate_chunk_request request) [
          | ok _ ↦ plan_loop (length request.audio_samples + 1) request 0 []
          | err e ↦ some (err e)
          | panic ↦ some panic
        ]
