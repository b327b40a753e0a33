-- ===== src/Whisper/Tests.antt =====
-- Small inputs for the Whisper samplers, the decode loop and the chunk plan.
use ocelotl.Common.{
  ℕ, zero, suc, ◌+◌, ◌*◌, map, ◌≤◌, ◌<◌, ◌≡◌, refl, ◌⊎◌, Bool, true, some, List, [], ◌∷◌, All,
  arith, ltb,
}
use ocelotl.Core.Errors.{ok, err, runtime_err}
use ocelotl.Core.Words.{checked_add}
use ocelotl.Core.Limits.{default_limits, validate, validate_generation}
use ocelotl.Whisper.Tokens.{
  WhisperStartupTokens, WhisperDecodeMask, WhisperTimestampMode, transcribe, mask_token,
}
use ocelotl.Whisper.Segments.{parse_whisper_timestamped_segments}
use ocelotl.Whisper.Segments.RoundTrip.{Spoken, segment, IsWellSpoken, parse-written}
use ocelotl.Whisper.Sampling.{masked_scan, greedy_sample, masked_greedy_sample}
use ocelotl.Whisper.Sampling.Argmax.{IsOrder, IsBest, NoneFree}
use ocelotl.Whisper.Sampling.Choice.{free, greedy_sample_argmax, masked_greedy_sample_argmax}
use ocelotl.Whisper.Decode.{
  WhisperModel, WhisperDecodeRequest, WhisperTranscriptionResponse, validate_whisper_decode_request,
  decode_loop, decode_whisper_transcription,
}
use ocelotl.Whisper.Decode.Outputs.{IsOutput, decode_outputs}
use ocelotl.Whisper.Chunks.{
  ChunkedTranscriptionRequest, TranscriptionChunk, plan_transcription_chunks,
}
use ocelotl.Whisper.Chunks.Coverage.{IsPlannable, InBounds, Linked, Covered, plan_covers_audio}

-- Natural numbers for logits.
abbrev gt : ℕ → ℕ → Bool
gt a b = ltb b a

gt-IsOrder : IsOrder gt
gt-IsOrder = record { asym = λ a b h. ground arith; through = λ a b c h k. ground arith }

abbrev startup : WhisperStartupTokens
startup = record {
  end_of_text = 1;
  start_of_transcript = 2;
  language = 3;
  transcribe_task = 4;
  no_timestamps = 5;
  first_timestamp = 6;
}

abbrev mask : WhisperDecodeMask
mask = transcribe startup WhisperTimestampMode.without

abbrev logits : List ℕ
logits = 4 ∷ 7 ∷ 9 ∷ 7 ∷ []

greedy_sample_argmax_example :
    (t : ℕ) × (w : ℕ) × (greedy_sample gt logits ≡ ok t) × IsBest gt (λ j. true) logits 4 t w
greedy_sample_argmax_example = greedy_sample_argmax gt gt-IsOrder 4 (7 ∷ 9 ∷ 7 ∷ []) (omega arith)

masked_greedy_sample_argmax_example :
    ((t : ℕ) × (w : ℕ) × (masked_greedy_sample gt logits mask ≡ ok t)
      × IsBest gt (free mask) logits 4 t w)
    ⊎ ((masked_greedy_sample gt logits mask
          ≡ err (runtime_err "Whisper decode mask suppressed every logit"))
        × NoneFree gt (free mask) logits 4)
masked_greedy_sample_argmax_example =
    masked_greedy_sample_argmax gt gt-IsOrder mask logits (omega arith)

-- A model that says token 0 once and then the end of text.
abbrev say : ℕ → List ℕ
say zero = 5 ∷ 3 ∷ []
say (suc n) = 0 ∷ 3 ∷ []

abbrev model : WhisperModel ℕ ℕ ℕ
model = record {
  audio_context_length = 10;
  text_context_length = 10;
  encode = λ samples metadata limits. ok 0;
  prepare_decoder_state_from_audio = λ audio tokens. ok 0;
  next_token_logits = say;
  append_decoder_token_from_audio = λ audio state token. ok (suc state);
}

abbrev request : WhisperDecodeRequest
request = record {
  decoder_prompt_tokens = 2 ∷ 5 ∷ [];
  max_new_tokens = 4;
  decode_mask = mask;
  stop_token = 1;
}

abbrev response : WhisperTranscriptionResponse ℕ
response = record { tokens = 0 ∷ 1 ∷ []; logits = 0 ∷ 3 ∷ [] }

decoded : decode_whisper_transcription gt model (λ n. true) 0 request default_limits ≡ ok response
unfolding decode_whisper_transcription validate_whisper_decode_request validate_generation validate
    checked_add decode_loop masked_greedy_sample masked_scan mask_token
decoded = refl

decode_outputs_example : IsOutput request (0 ∷ 1 ∷ []) × (2 + 2 ≤ 10)
decode_outputs_example =
    decode_outputs gt model 0 request (λ n. true) default_limits response decoded

-- Seven samples in windows of four that overlap by one.
abbrev recording : ChunkedTranscriptionRequest ℕ
recording = record {
  audio_samples = 1 ∷ 2 ∷ 3 ∷ 4 ∷ 5 ∷ 6 ∷ 7 ∷ [];
  audio_metadata = record { sample_rate_hz = 16_000; channels = 1 };
  decoder_prompt_tokens = [];
  chunking = record { window_samples = 4; overlap_samples = 1 };
}

recording-IsPlannable : IsPlannable recording
recording-IsPlannable = record {
  rate = refl;
  mono = refl;
  some_audio = omega arith;
  audio_fits = omega arith;
  window_fits = omega arith;
  overlap_lt = omega arith;
}

plan_covers_audio_example :
    (c : TranscriptionChunk ℕ) × (cs : List (TranscriptionChunk ℕ)) × (plan_transcription_chunks
        (λ samples rate. samples)
        recording
      ≡ some (ok (c ∷ cs)))
    × ((j : ℕ) → j < 7 → Covered recording j (c ∷ cs))
    × All (InBounds recording) (c ∷ cs)
    × (c.start_sample ≡ 0)
    × (c.index ≡ 0)
    × Linked recording c cs
plan_covers_audio_example =
    plan_covers_audio recording (λ samples rate. samples) recording-IsPlannable

abbrev words : WhisperStartupTokens
words = record startup { first_timestamp = 100 }

abbrev said : List Spoken
said =
    record { start = 100; first = 10; others = 11 ∷ []; stop = 120 }
    ∷ record { start = 120; first = 12; others = []; stop = 130 }
    ∷ []

said-IsWellSpoken : All (IsWellSpoken words) said
said-IsWellSpoken = (
  (omega arith, omega arith, (omega arith, ground arith), ((omega arith, ground arith), tt)),
  ((omega arith, omega arith, (omega arith, ground arith), tt), tt),
)

parse-written_example :
    parse_whisper_timestamped_segments
      (λ n. n * 2)
      words
      (100 ∷ 10 ∷ 11 ∷ 120 ∷ 120 ∷ 12 ∷ 130 ∷ [])
    ≡ ok (map (segment (λ n. n * 2) words) said)
parse-written_example = parse-written (λ n. n * 2) words said (omega arith) said-IsWellSpoken
