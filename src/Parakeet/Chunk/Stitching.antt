-- ===== src/Parakeet/Chunk/Stitching.antt =====
-- The chunked encoding: what it keeps of the windows.
use ocelotl.Common.{
  ℕ, zero, suc, ◌+◌, ◌-◌, ◌*◌, ◌/◌, ◌≤◌, ◌<◌, ◌≡◌, refl, sym, ap, ◌∙◌, subst, Bool, String, true,
  false, some, List, [], ◌∷◌, ◌++◌, min, ltb, arith, length, take, drop, length-append, drop-drop,
}
use native.Mathlib.Nat.{mul-le-mul_right, mul-sub, mul-div_left}
use ocelotl.Core.Errors.{Result, ok}
use ocelotl.Core.Words.{usize_range}
use ocelotl.Core.Panics.{isize_max}
use ocelotl.Parakeet.Audio.{IsRecording, parakeet_log_mel_ok}
use ocelotl.Parakeet.Frames.{frame_count, subsampled_frames, subsampled_frames_ceil}
use ocelotl.Parakeet.Chunk.{
  ChunkWindow, keep_range, mel_range, plan_chunks, slice_of, encode_window, encode_windows, stitch,
  encode_planned, encode_audio_chunked,
}
use ocelotl.Parakeet.Chunk.Tiling.{IsWindow, Tiles, plan_chunks-Tiles, mel_range_parts}

module _ {F : Type 0} where
  -- The values of `n` frames from `s` on, one after the other.
  abbrev pub frames : (ℕ → List F) → ℕ → ℕ → List F
  frames g s zero = []
  frames g s (suc n) = g s ++ frames g (suc s) n

  module _ (g : ℕ → List F) (d : ℕ) (each : (i : ℕ) → length (g i) ≡ d) where
    drop_first : (xs ys : List F) → drop (length xs) (xs ++ ys) ≡ ys
    drop_first [] ys = refl
    drop_first (x ∷ xs) ys = drop_first xs ys

    take_first : (xs ys : List F) (n : ℕ) → take (length xs + n) (xs ++ ys) ≡ xs ++ take n ys
    take_first [] ys n = let e : 0 + n ≡ n = omega arith in ap (λ k. take k ys) e
    take_first (x ∷ xs) ys n =
        let e : length (x ∷ xs) + n ≡ suc (length xs + n) = omega arith in
        rw e (ap (◌∷◌ x) (take_first xs ys n))

    length-frames : (s n : ℕ) → length (frames g s n) ≡ n * d
    length-frames s zero = omega arith
    length-frames s (suc n) =
        omega (arith, length-append (g s) (frames g (suc s) n), each s, length-frames (suc s) n)

    drop-frames : (s k n : ℕ) → k ≤ n → drop (k * d) (frames g s n) ≡ frames g (s + k) (n - k)
    drop-frames s zero n h =
        let none_left : 0 * d ≡ 0 = omega arith in
        let all_left : n - 0 ≡ n = omega arith in
        let e : s + 0 ≡ s = omega arith in rw (none_left, all_left, e) refl
    drop-frames s (suc k) zero h = elim h [ ]
    drop-frames s (suc k) (suc n) h =
        let first : drop d (g s ++ frames g (suc s) n) ≡ frames g (suc s) n =
          ap (λ w. drop w (g s ++ frames g (suc s) n)) (sym (each s)) ∙ drop_first (g s) _ in
        let sum : suc k * d ≡ d + k * d = omega arith in
        let left : suc n - suc k ≡ n - k = omega arith in
        let place : s + suc k ≡ suc s + k = omega arith in
        rw left (
          ap (λ w. drop w (g s ++ frames g (suc s) n)) sum
          ∙ sym (drop-drop d (k * d) (g s ++ frames g (suc s) n))
          ∙ ap (drop (k * d)) first
          ∙ drop-frames (suc s) k n (omega arith)
          ∙ ap (λ p. frames g p (n - k)) (sym place))

    take-frames : (s k n : ℕ) → k ≤ n → take (k * d) (frames g s n) ≡ frames g s k
    take-frames s zero n h = let none_left : 0 * d ≡ 0 = omega arith in rw none_left refl
    take-frames s (suc k) zero h = elim h [ ]
    take-frames s (suc k) (suc n) h =
        let sum : suc k * d ≡ length (g s) + k * d = omega (arith, each s) in
        ap (λ w. take w (g s ++ frames g (suc s) n)) sum
        ∙ take_first (g s) (frames g (suc s) n) (k * d)
        ∙ ap (λ ys. g s ++ ys) (take-frames (suc s) k n (omega arith))

    -- A range of frames is a slice of their values.
    slice-frames :
        (a b n : ℕ)
        → a ≤ b
        → b ≤ n
        → slice_of (frames g 0 n) (a * d) (b * d) ≡ ok (frames g a (b - a))
    slice-frames a b n h k =
        let starts : a * d ≤ b * d = mul-le-mul_right d h in
        let stops : b * d ≤ length (frames g 0 n) =
          subst (λ w. b * d ≤ w) (sym (length-frames 0 n)) (mul-le-mul_right d k) in
        let from_a : 0 + a ≡ a = omega arith in
        let width : b * d - a * d ≡ (b - a) * d = omega (arith, mul-sub d b a) in
        let e : take (b * d - a * d) (drop (a * d) (frames g 0 n)) ≡ frames g a (b - a) =
          ap (λ w. take w (drop (a * d) (frames g 0 n))) width
          ∙ ap (take ((b - a) * d)) (drop-frames 0 a n (omega arith))
          ∙ ap (λ p. take ((b - a) * d) (frames g p (n - a))) from_a
          ∙ take-frames a (b - a) (n - a) (omega arith) in
        ground (arith, e)

-- The frames that are made of the mel frames of a recording, one of every 8, rounded up.
abbrev pub recording_frames : {S : Type 0} → List S → ℕ
recording_frames audio = (frame_count (length audio) + 7) / 8

some_frames : (samples : ℕ) → 0 < frame_count samples
unfolding frame_count
some_frames samples = omega arith

module _ {F : Type 0} (h : ℕ → ℕ → ℕ → List F) (d : ℕ) where
  -- The values that are kept of a window: those of the frames of its body.
  abbrev pub body_values : ℕ → ChunkWindow → List F
  body_values mel w =
      frames (h (min (w.ctx_start * 8) mel) (min (w.ctx_end * 8) mel)) (w.body_start - w.ctx_start)
        (w.body_end - w.body_start)

  abbrev pub plan_values : ℕ → List ChunkWindow → List F
  plan_values mel [] = []
  plan_values mel (w ∷ ws) = body_values mel w ++ plan_values mel ws

  -- An encoder that answers the frames that the subsampler makes, `h from to i` for the frame `i` of
  -- the mel frames between `from` and `to`.
  abbrev pub Encodes : ℕ → (ℕ → ℕ → Result (List F × ℕ)) → Type 0
  Encodes mel encode_slice =
      (from to n : ℕ)
      → to ≤ mel
      → subsampled_frames (to - from) ≡ ok n
      → encode_slice from to ≡ ok (frames (h from to) 0 n, n)

  module _ (encode_slice : ℕ → ℕ → Result (List F × ℕ)) (mel total chunk context : ℕ)
      (each : (from to i : ℕ) → length (h from to i) ≡ d) (encodes : Encodes mel encode_slice)
      (some_mel : 0 < mel) (few_mel : mel + 7 < usize_range) (is_total : total ≡ (mel + 7) / 8)
      (fits : 4 * (total * d) ≤ isize_max) where
    -- The steps of `encode_window`, where each succeeds.
    window_result :
        (w : ChunkWindow) (from to produced start end : ℕ) (hidden out : List F)
        → mel_range w mel ≡ ok (from, to)
        → encode_slice from to ≡ ok (hidden, produced)
        → keep_range w ≡ ok (start, end)
        → end ≤ produced
        → start * d < usize_range
        → end * d < usize_range
        → slice_of hidden (start * d) (end * d) ≡ ok out
        → encode_window encode_slice d mel w ≡ ok out
    unfolding encode_window
    window_result w from to produced start end hidden out range encoded keep le a b sliced =
        let enough : ltb produced end ≡ false = ground arith in
        let fits_start : ltb (start * d) usize_range ≡ true = ground arith in
        let fits_end : ltb (end * d) usize_range ≡ true = ground arith in
        rw (range, encoded, keep, enough, fits_start, fits_end, encode_window) sliced

    encode_window_ok :
        (w : ChunkWindow)
        → IsWindow total chunk context w
        → encode_window encode_slice d mel w ≡ ok (body_values mel w)
    unfolding keep_range
    encode_window_ok w p =
        let (range, small, made, order) =
          mel_range_parts mel total chunk context w some_mel few_mel is_total p in
        let from : ℕ = min (w.ctx_start * 8) mel in
        let to : ℕ = min (w.ctx_end * 8) mel in
        let encoded = encodes from to (w.ctx_end - w.ctx_start) small made in
        let inside : w.body_end - w.ctx_start ≤ w.ctx_end - w.ctx_start =
          omega (arith, p.behind, p.body_inside) in
        let whole : w.ctx_end ≤ total = omega (arith, p.behind) in
        let kept : slice_of (frames (h from to) 0 (w.ctx_end - w.ctx_start))
              ((w.body_start - w.ctx_start) * d) ((w.body_end - w.ctx_start) * d)
            ≡ ok (
                frames (h from to) (w.body_start - w.ctx_start)
                  (w.body_end - w.ctx_start - (w.body_start - w.ctx_start))) =
          slice-frames (h from to) d (each from to) (w.body_start - w.ctx_start)
            (w.body_end - w.ctx_start) (w.ctx_end - w.ctx_start) (omega (arith, p.some_body))
            inside in
        let width : w.body_end - w.ctx_start - (w.body_start - w.ctx_start)
            ≡ w.body_end - w.body_start =
          omega (arith, p.before, p.some_body) in
        let low : (w.body_start - w.ctx_start) * d ≤ total * d =
          mul-le-mul_right d (omega (arith, p.some_body, p.body_inside)) in
        let high : (w.body_end - w.ctx_start) * d ≤ total * d =
          mul-le-mul_right d (omega (arith, p.body_inside)) in
        let keep : keep_range w ≡ ok (w.body_start - w.ctx_start, w.body_end - w.ctx_start) =
          ground (arith, p.before, p.some_body) in
        let result : slice_of (frames (h from to) 0 (w.ctx_end - w.ctx_start))
              ((w.body_start - w.ctx_start) * d) ((w.body_end - w.ctx_start) * d)
            ≡ ok (body_values mel w) =
          kept ∙ ap (λ n. ok (frames (h from to) (w.body_start - w.ctx_start) n)) width in
        window_result w from to (w.ctx_end - w.ctx_start) _ _ _ (body_values mel w) range encoded
          keep inside (omega arith) (omega arith) result

    encode_windows_ok :
        (start : ℕ) (ws : List ChunkWindow)
        → Tiles total chunk context start ws
        → encode_windows encode_slice d mel ws ≡ ok (plan_values mel ws)
    unfolding encode_windows
    encode_windows_ok start [] t = refl
    encode_windows_ok start (w ∷ ws) (_, p, t) =
        rw (encode_window_ok w p, encode_windows_ok w.body_end ws t, encode_windows) refl

    length-plan_values :
        (start : ℕ) (ws : List ChunkWindow)
        → Tiles total chunk context start ws
        → length (plan_values mel ws) + start * d ≡ total * d
    length-plan_values start [] e =
        let none_more : 0 + start * d ≡ start * d = omega arith in none_more ∙ ap (λ n. n * d) e
    length-plan_values start (w ∷ ws) (at_start, p, t) =
        let rest = length-plan_values w.body_end ws t in
        let here =
          length-frames (h (min (w.ctx_start * 8) mel) (min (w.ctx_end * 8) mel)) d (each _ _)
            (w.body_start - w.ctx_start) (w.body_end - w.body_start) in
        let begin : w.body_start * d ≡ start * d = ap (λ n. n * d) at_start in
        let parts : (w.body_end - w.body_start) * d ≡ w.body_end * d - w.body_start * d =
          omega (arith, mul-sub d w.body_end w.body_start) in
        let order : w.body_start * d ≤ w.body_end * d =
          mul-le-mul_right d (omega (arith, p.some_body)) in
        let both : length (plan_values mel (w ∷ ws))
            ≡ length (body_values mel w) + length (plan_values mel ws) =
          length-append (body_values mel w) (plan_values mel ws) in
        let mine : length (body_values mel w) ≡ w.body_end * d - w.body_start * d = here ∙ parts in
        omega arith

    -- The steps behind the plan.
    stitch_ok :
        (ws : List ChunkWindow)
        → Tiles total chunk context 0 ws
        → 0 < d
        → stitch encode_slice d mel total ws ≡ ok (plan_values mel ws, total)
    unfolding stitch
    stitch_ok ws t pos =
        let size : length (plan_values mel ws) ≡ total * d =
          omega (arith, length-plan_values 0 ws t) in
        let count : length (plan_values mel ws) / d ≡ total =
          ap (λ n. n / d) size ∙ mul-div_left total pos in
        ground (arith, encode_windows_ok 0 ws t, count)

  -- The chunked encoding of a recording succeeds, and its output is the bodies of a plan that tiles the
  -- recording. The conditions: more than 256 samples, with room for the samples, the padding, the
  -- features and the output; `d` values a frame, some of them; a positive chunk length; an encoder that
  -- answers for each slice of the features the number of frames that the subsampler makes of it; and
  -- sums that fit a `usize`. The output has as many frames as the whole recording, and each window
  -- gives the values of the frames of its body.
  pub encode_audio_chunked_stitches :
      {S : Type 0} (can_reserve : String → ℕ → Bool) (audio : List S)
      (encode_slice : ℕ → ℕ → Result (List F × ℕ)) (chunk context : ℕ)
      → IsRecording can_reserve audio
      → ((from to i : ℕ) → length (h from to i) ≡ d)
      → Encodes (frame_count (length audio)) encode_slice
      → 0 < d
      → 0 < chunk
      → recording_frames audio + chunk < usize_range
      → recording_frames audio + context < usize_range
      → 4 * (recording_frames audio * d) ≤ isize_max
      → (ws : List ChunkWindow) × (plan_chunks (recording_frames audio) chunk context
          ≡ some (ok ws))
        × Tiles (recording_frames audio) chunk context 0 ws
        × (encode_audio_chunked encode_slice d can_reserve audio chunk context
            ≡ some (ok (plan_values (frame_count (length audio)) ws, recording_frames audio)))
        × (length (plan_values (frame_count (length audio)) ws) ≡ recording_frames audio * d)
  unfolding encode_audio_chunked encode_planned
  encode_audio_chunked_stitches can_reserve audio encode_slice chunk context recording each encodes
        d_pos some_chunk few_chunk few_context fits =
      let mel : ℕ = frame_count (length audio) in
      let total : ℕ = recording_frames audio in
      let some_mel : 0 < mel = some_frames (length audio) in
      let few_mel : mel + 7 < usize_range = omega (arith, recording.room) in
      let (ws, planned, tiles) =
        plan_chunks-Tiles total chunk context some_chunk few_chunk few_context in
      let made : subsampled_frames mel ≡ ok total =
        subsampled_frames_ceil mel some_mel (omega arith) in
      let stitched : stitch encode_slice d mel total ws ≡ ok (plan_values mel ws, total) =
        stitch_ok encode_slice mel total chunk context each encodes some_mel few_mel refl fits ws
          tiles d_pos in
      (
        ws,
        planned,
        tiles,
        rw
            (
              parakeet_log_mel_ok can_reserve audio recording,
              made,
              planned,
              encode_audio_chunked,
              encode_planned,
            )
            (ap some stitched),
        omega (
          arith,
          length-plan_values encode_slice mel total chunk context each encodes some_mel few_mel refl
              fits 0 ws tiles,
        ),
      )
