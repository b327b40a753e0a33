-- ===== src/Parakeet/Chunk.antt =====
-- crates/models/src/parakeet/chunk.rs, and `encode_audio_chunked` of model.rs. A sum, a product or a
-- difference that does not fit a `usize` panics, as in a build with overflow checks. `none` says that
-- the fuel of the planning loop ran out; it is the number of frames.
pub mod Tiling
pub mod Stitching
use ocelotl.Common.{
  ℕ, zero, suc, ◌+◌, ◌-◌, ◌*◌, ◌/◌, Option, none, some, List, [], ◌∷◌, ◌++◌, min, max, leb, ltb,
  ◌==◌, if◌then◌else◌, length, take, drop, Bool, true, false, String,
}
use ocelotl.Core.Errors.{Result, ok, err, panic, ◌>>=◌, ◌>>◌, OcelotlError, RuntimeError}
use ocelotl.Core.Words.{usize_range}
use ocelotl.Core.Panics.{or_overflow, allocated}
use ocelotl.Parakeet.Frames.{subsampled_frames}
use ocelotl.Parakeet.Audio.{parakeet_log_mel}

-- `rt`.
abbrev pub rt : {A : Type 0} → String → Result A
rt message = err (OcelotlError.runtime (record { message = message }))

abbrev pub mel_frames_per_frame : ℕ
mel_frames_per_frame = 8

pub record ChunkWindow : Type 0 where
  pub ctx_start : ℕ
  pub ctx_end : ℕ
  pub body_start : ℕ
  pub body_end : ℕ

abbrev pub minus : ℕ → ℕ → Result ℕ
minus a b = if leb b a then ok (a - b) else panic

unfoldable pub encoded_frames : ChunkWindow → Result ℕ
encoded_frames w = minus w.ctx_end w.ctx_start

unfoldable pub kept_frames : ChunkWindow → Result ℕ
kept_frames w = minus w.body_end w.body_start

unfoldable pub keep_range : ChunkWindow → Result (ℕ × ℕ)
keep_range w = do
  start ← minus w.body_start w.ctx_start
  end ← minus w.body_end w.ctx_start
  ok (start, end)

unfoldable pub mel_range : ChunkWindow → ℕ → Result (ℕ × ℕ)
mel_range w total_mel_frames = do
  from ← or_overflow (w.ctx_start * mel_frames_per_frame)
  to ← or_overflow (w.ctx_end * mel_frames_per_frame)
  ok (min from total_mel_frames, max (min to total_mel_frames) (min from total_mel_frames))

-- The window whose body starts at `body_start`.
unfoldable pub next_window : ℕ → ℕ → ℕ → ℕ → Result ChunkWindow
next_window total_frames chunk_frames context_frames body_start = do
  chunk_end ← or_overflow (body_start + chunk_frames)
  context_end ← or_overflow (min chunk_end total_frames + context_frames)
  ok (record {
    ctx_start = body_start - context_frames;
    ctx_end = min context_end total_frames;
    body_start = body_start;
    body_end = min chunk_end total_frames;
  })

-- The windows from `body_start` on.
unfoldable pub plan_loop : ℕ → ℕ → ℕ → ℕ → ℕ → Option (Result (List ChunkWindow))
plan_loop zero total chunk context start = if ltb start total then none else some (ok [])
plan_loop (suc fuel) total chunk context start = elim (ltb start total) [
  | false ↦ some (ok [])
  | true ↦ elim (next_window total chunk context start) [
    | err e ↦ some (err e)
    | panic ↦ some panic
    | ok window ↦ elim (plan_loop fuel total chunk context window.body_end) [
      | none ↦ none
      | some rest ↦ some (rest >>= λ windows. ok (window ∷ windows))
    ]
  ]
]

unfoldable pub plan_chunks : ℕ → ℕ → ℕ → Option (Result (List ChunkWindow))
plan_chunks total_frames chunk_frames context_frames =
    if chunk_frames == 0
    then some (rt "chunk_frames must be non-zero")
    else (if total_frames == 0
        then some (ok [])
        else plan_loop total_frames total_frames chunk_frames context_frames 0)

-- `&hidden[from..to]`.
abbrev pub slice_of : {F : Type 0} → List F → ℕ → ℕ → Result (List F)
slice_of xs from to =
    if leb from to
    then (if leb to (length xs) then ok (take (to - from) (drop from xs)) else panic)
    else panic

-- The encoder is a parameter: `encode_slice a b` encodes the mel frames from `a` to `b`, and answers
-- the hidden values, `d` of them a frame, and the number of frames.
module _ {F : Type 0} (encode_slice : ℕ → ℕ → Result (List F × ℕ)) (d : ℕ) where
  unfoldable pub encode_window : ℕ → ChunkWindow → Result (List F)
  encode_window mel_frames window = do
    range ← mel_range window mel_frames
    encoded ← encode_slice (range.0) (range.1)
    keep ← keep_range window
    if ltb (encoded.1) (keep.1)
        then rt
            "chunk [{}, {}) needed local frames {keep:?} but the encoder produced only {produced} from {} mel frames — the frame arithmetic and the encoder disagree"
        else (do
          from ← or_overflow (keep.0 * d)
          to ← or_overflow (keep.1 * d)
          slice_of (encoded.0) from to)

  unfoldable pub encode_windows : ℕ → List ChunkWindow → Result (List F)
  encode_windows mel_frames [] = ok []
  encode_windows mel_frames (window ∷ windows) = do
    values ← encode_window mel_frames window
    rest ← encode_windows mel_frames windows
    ok (values ++ rest)

  -- What follows the plan. A hidden value has 4 bytes. The division by 0 panics.
  unfoldable pub stitch : ℕ → ℕ → List ChunkWindow → Result (List F × ℕ)
  stitch mel_frames total plan = do
    capacity ← or_overflow (total * d)
    allocated (4 * capacity) (tt {0})
    out ← encode_windows mel_frames plan
    if d == 0
        then panic
        else (if length out / d == total
            then ok (out, length out / d)
            else rt "stitched {frames} frames but planned {total}")

  -- What follows the features of the recording, which are `mel_frames`.
  unfoldable pub encode_planned : ℕ → ℕ → ℕ → Option (Result (List F × ℕ))
  encode_planned mel_frames chunk_frames context_frames = elim (subsampled_frames mel_frames) [
    | err e ↦ some (err e)
    | panic ↦ some panic
    | ok total ↦ elim (plan_chunks total chunk_frames context_frames) [
      | none ↦ none
      | some plan ↦ some (plan >>= stitch mel_frames total)
    ]
  ]

  -- `can_reserve what n` says whether room for `n` samples is found.
  unfoldable pub encode_audio_chunked :
      {S : Type 0} → (String → ℕ → Bool) → List S → ℕ → ℕ → Option (Result (List F × ℕ))
  encode_audio_chunked can_reserve audio chunk_frames context_frames =
      elim (parakeet_log_mel can_reserve audio) [
        | err e ↦ some (err e)
        | panic ↦ some panic
        | ok mel_frames ↦ encode_planned mel_frames chunk_frames context_frames
      ]
