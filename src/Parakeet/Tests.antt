-- ===== src/Parakeet/Tests.antt =====
-- A recording of 1500 samples, planned and encoded in chunks.
use ocelotl.Common.{
  ℕ, ltb, ◌==◌, ◌&&◌, if◌then◌else◌, ◌+◌, ◌*◌, ◌-◌, ◌≤◌, ◌<◌, ◌≡◌, refl, some, List, [], ◌∷◌, arith,
  length, String, Bool, true, false, replicate, length-replicate,
}
use ocelotl.Core.Errors.{Result, ok, panic, ◌>>=◌}
use ocelotl.Parakeet.Audio.{IsRecording}
use ocelotl.Parakeet.Frames.{frame_count, subsampled_frames, subsampled_frames_ceil}
use ocelotl.Parakeet.Decoder.{
  TdtStep, TdtDecode, TdtConfig, default_config, joint_width, vocab_size, greedy_decode,
  decode_loop, decode_step, evaluate, emit, advance, argmax, argmax_scan, initial,
}
use ocelotl.Parakeet.Decoder.Limits.{greedy_decode_returns}
use ocelotl.Parakeet.Decoder.Outputs.{committed, decode_loop_commits, greedy_decode_outputs}
use ocelotl.Parakeet.Decoder.Steps.{step_tokens, step_frames, Linked}
use ocelotl.Parakeet.Chunk.{
  ChunkWindow, encoded_frames, mel_range, plan_chunks, encode_audio_chunked,
}
use ocelotl.Parakeet.Chunk.Tiling.{Tiles, IsWindow, plan_chunks-Tiles, mel_range-encoded_frames}
use ocelotl.Parakeet.Chunk.Stitching.{frames, plan_values, encode_audio_chunked_stitches}

subsampled_frames_ceil_example : subsampled_frames 1101 ≡ ok 138
subsampled_frames_ceil_example = subsampled_frames_ceil 1101 (omega arith) (omega arith)

plan_chunks-Tiles_example :
    (ws : List ChunkWindow) × (plan_chunks 138 48 12 ≡ some (ok ws)) × Tiles 138 48 12 0 ws
plan_chunks-Tiles_example = plan_chunks-Tiles 138 48 12 (omega arith) (omega arith) (omega arith)

abbrev middle_window : ChunkWindow
middle_window = record { ctx_start = 36; ctx_end = 108; body_start = 48; body_end = 96 }

middle-IsWindow : IsWindow 138 48 12 middle_window
middle-IsWindow = record {
  some_body = omega arith;
  short_body = omega arith;
  body_inside = omega arith;
  before = refl;
  behind = refl;
}

mel_range-encoded_frames_example :
    (from : ℕ) × (to : ℕ) × (n : ℕ) × (mel_range middle_window 1101 ≡ ok (from, to))
    × (to ≤ 1101)
    × (subsampled_frames (to - from) ≡ ok n)
    × (encoded_frames middle_window ≡ ok n)
mel_range-encoded_frames_example =
    mel_range-encoded_frames 1101 138 48 12 middle_window (omega arith) (omega arith) refl
      middle-IsWindow

-- An encoder of two values a frame.
abbrev values : ℕ → ℕ → ℕ → List ℕ
values from to i = (from + i) ∷ to ∷ []

abbrev encode : ℕ → ℕ → Result (List ℕ × ℕ)
encode from to = subsampled_frames (to - from) >>= λ n. ok (frames (values from to) 0 n, n)

-- 1500 samples, which make 10 mel frames and so 2 frames, and memory that never runs out.
abbrev recording : List ℕ
recording = replicate 1500 0

abbrev always : String → ℕ → Bool
always what n = true

recording-IsRecording : IsRecording always recording
unfolding frame_count
recording-IsRecording = record {
  long = omega arith;
  padded = omega arith;
  reserved = refl;
  reserved_padded = refl;
  room = omega arith;
}

encode_audio_chunked_stitches_example :
    (ws : List ChunkWindow) × (plan_chunks 2 1 1 ≡ some (ok ws))
    × Tiles 2 1 1 0 ws
    × (encode_audio_chunked encode 2 always recording 1 1
        ≡ some (ok (plan_values values 2 10 ws, 2)))
    × (length (plan_values values 2 10 ws) ≡ 2 * 2)
unfolding frame_count
encode_audio_chunked_stitches_example =
    encode_audio_chunked_stitches values 2 always recording encode 1 1 recording-IsRecording
      (λ from to i. refl) (λ from to n h e. rw e refl) (omega arith) (omega arith) (omega arith)
      (omega arith) (omega arith)

-- Networks for which every logit is the same, so that the token is 0 and so is its duration.
abbrev even : Bool → Bool → Bool
even a b = false

abbrev predict : ℕ → ℕ → Result (ℕ × ℕ)
predict token s = ok (token, s + 1)

abbrev join : ℕ → ℕ → Result (List Bool)
join t p = ok (replicate joint_width true)

-- One logit, which is the token's.
abbrev join_one : ℕ → ℕ → Result (List Bool)
join_one t p = ok (true ∷ [])

abbrev short_config : TdtConfig
short_config = record default_config { max_tokens_per_step = 2; max_steps = 6 }

abbrev sample_step : ℕ → ℕ → TdtStep
sample_step t prev = record {
  frame = t;
  prev_token = prev;
  token = 0;
  duration_index = 0;
  duration = 0;
}

abbrev sample_decode : TdtDecode
sample_decode = record {
  tokens = 0 ∷ 0 ∷ 0 ∷ 0 ∷ [];
  frames = 0 ∷ 0 ∷ 1 ∷ 1 ∷ [];
  steps = sample_step 0 8192 ∷ sample_step 0 0 ∷ sample_step 1 0 ∷ sample_step 1 0 ∷ [];
}

-- A network that refuses a token outside the vocabulary and a state of the wrong length.
abbrev predict_checked : ℕ → List ℕ → Result (ℕ × List ℕ)
predict_checked token s =
    if ltb token vocab_size && length s == 2 then ok (token, token ∷ token ∷ []) else panic

checked :
    (token : ℕ) (s : List ℕ)
    → token < vocab_size
    → length s ≡ 2
    → (p : ℕ) × (s' : List ℕ) × (predict_checked token s ≡ ok (p, s'))
      × (p < vocab_size)
      × (length s' ≡ 2)
checked token s h k = (token, token ∷ token ∷ [], ground arith, h, refl)

greedy_decode_returns_example :
    (out : TdtDecode) × (greedy_decode even true predict_checked join short_config
        (ok tt)
        (0 ∷ 0 ∷ [])
        3
      ≡ some (ok out))
    × (length out.steps ≤ 6)
greedy_decode_returns_example =
    greedy_decode_returns even true predict_checked join short_config 3 (0 ∷ 0 ∷ [])
      (λ s. length s ≡ 2) (λ p. p < vocab_size) checked
      (λ t p h k. (replicate joint_width true, refl, length-replicate joint_width true)) refl
      (omega arith) refl
      (omega arith, (omega arith, (omega arith, (omega arith, (omega arith, tt))))) (omega arith)
      (omega arith)

sample_decoded :
    greedy_decode even true predict join_one short_config (ok tt) 7 2 ≡ some (ok sample_decode)
unfolding greedy_decode decode_loop decode_step evaluate emit advance argmax argmax_scan
sample_decoded = refl

greedy_decode_outputs_example :
    (sample_decode.tokens ≡ step_tokens 8192 sample_decode.steps)
    × (sample_decode.frames ≡ step_frames 8192 sample_decode.steps)
    × (t : ℕ) × (2 ≤ t)
    × Linked 2 0 sample_decode.steps t
greedy_decode_outputs_example =
    greedy_decode_outputs even true predict join_one short_config (ok tt) 7 2 sample_decode
      sample_decoded

sample_looped :
    decode_loop even true predict join_one short_config 7 2
      (initial even true predict join_one short_config 7)
    ≡ some (ok (record { state = 11; out = sample_decode; t = 2; emitted = 0 }))
unfolding decode_loop decode_step evaluate emit advance argmax argmax_scan
sample_looped = refl

decode_loop_commits_example :
    committed even true predict join_one short_config 7 8192 sample_decode.tokens ≡ ok 11
decode_loop_commits_example =
    decode_loop_commits even true predict join_one short_config 7 2 7
      (record { state = 11; out = sample_decode; t = 2; emitted = 0 }) sample_looped
