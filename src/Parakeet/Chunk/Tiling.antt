-- ===== src/Parakeet/Chunk/Tiling.antt =====
-- The plan: what its windows cover.
use ocelotl.Common.{
  ℕ, zero, suc, ◌+◌, ◌-◌, ◌*◌, ◌/◌, ◌≤◌, ◌<◌, ◌≡◌, refl, ap, ◌∙◌, inl, inr, some, List, [], ◌∷◌,
  min, ltb, arith, Bool-cases,
}
use ocelotl.Core.Errors.{ok}
use ocelotl.Core.Words.{usize_range}
use ocelotl.Parakeet.Frames.{subsampled_frames, subsampled_frames_ceil}
use ocelotl.Parakeet.Chunk.{
  ChunkWindow, encoded_frames, mel_range, next_window, plan_loop, plan_chunks,
}

-- A window of a plan for `total` frames.
pub record IsWindow (total chunk context : ℕ) (w : ChunkWindow) : Type 0 where
  pub some_body : w.body_start < w.body_end
  pub short_body : w.body_end ≤ w.body_start + chunk
  pub body_inside : w.body_end ≤ total
  pub before : w.ctx_start ≡ w.body_start - context
  pub behind : w.ctx_end ≡ min (w.body_end + context) total

-- Windows whose bodies follow each other from `start` to `total`.
abbrev pub Tiles : ℕ → ℕ → ℕ → ℕ → List ChunkWindow → Type 0
Tiles total chunk context start [] = start ≡ total
Tiles total chunk context start (w ∷ ws) =
    (w.body_start ≡ start)
    × IsWindow total chunk context w
    × Tiles total chunk context w.body_end ws

next_window_ok :
    (total chunk context start : ℕ)
    → 0 < chunk
    → total + chunk < usize_range
    → total + context < usize_range
    → start < total
    → (w : ChunkWindow) × (next_window total chunk context start ≡ ok w)
      × (w.body_start ≡ start)
      × IsWindow total chunk context w
unfolding next_window
next_window_ok total chunk context start h k l less = (
  record {
    ctx_start = start - context;
    ctx_end = min (min (start + chunk) total + context) total;
    body_start = start;
    body_end = min (start + chunk) total;
  },
  ground arith,
  refl,
  record {
    some_body = omega arith;
    short_body = omega arith;
    body_inside = omega arith;
    before = refl;
    behind = refl;
  },
)

plan_loop-Tiles :
    (fuel total chunk context start : ℕ)
    → 0 < chunk
    → total + chunk < usize_range
    → total + context < usize_range
    → start ≤ total
    → total ≤ start + fuel
    → (ws : List ChunkWindow) × (plan_loop fuel total chunk context start ≡ some (ok ws))
      × Tiles total chunk context start ws
unfolding plan_loop
plan_loop-Tiles zero total chunk context start h k l le enough = ([], ground arith, omega arith)
plan_loop-Tiles (suc fuel) total chunk context start h k l le enough =
    elim (Bool-cases (ltb start total)) [
      | inr f ↦ ([], rw (f, plan_loop) refl, ground arith)
      | inl t ↦
          let less : start < total = ground arith in
          let (w, planned, at_start, window) =
            next_window_ok total chunk context start h k l less in
          let (ws, rest, tiles) =
            plan_loop-Tiles fuel total chunk context w.body_end h k l (window.body_inside)
              (omega (arith, window.some_body, at_start)) in
          (w ∷ ws, rw (t, planned, rest, plan_loop) refl, (at_start, window, tiles))
    ]

-- For a positive chunk length, and as long as the sums with the number of frames fit a `usize`: the
-- plan exists, and the bodies of its windows follow each other from 0 to the number of frames without
-- gap or overlap, none empty and none longer than a chunk, each with the context on both sides that
-- the recording has.
pub plan_chunks-Tiles :
    (total chunk context : ℕ)
    → 0 < chunk
    → total + chunk < usize_range
    → total + context < usize_range
    → (ws : List ChunkWindow) × (plan_chunks total chunk context ≡ some (ok ws))
      × Tiles total chunk context 0 ws
unfolding plan_chunks
plan_chunks-Tiles zero chunk context h k l = ([], ground arith, refl)
plan_chunks-Tiles (suc n) chunk context h k l =
    let (ws, planned, tiles) =
      plan_loop-Tiles (suc n) (suc n) chunk context 0 h k l (omega arith) (omega arith) in
    (ws, ground (arith, planned), tiles)

-- The mel frames of a window.
pub mel_range_parts :
    (mel total chunk context : ℕ) (w : ChunkWindow)
    → 0 < mel
    → mel + 7 < usize_range
    → total ≡ (mel + 7) / 8
    → IsWindow total chunk context w
    → (mel_range w mel ≡ ok (min (w.ctx_start * 8) mel, min (w.ctx_end * 8) mel))
      × (min (w.ctx_end * 8) mel ≤ mel)
      × (subsampled_frames (min (w.ctx_end * 8) mel - min (w.ctx_start * 8) mel)
          ≡ ok (w.ctx_end - w.ctx_start))
      × (w.ctx_start ≤ w.ctx_end)
unfolding mel_range
mel_range_parts mel total chunk context w h k e p =
    let some_frames : w.ctx_start < w.ctx_end =
      omega (arith, p.before, p.behind, p.some_body, p.body_inside) in
    let last : w.ctx_end ≤ total = omega (arith, p.behind) in
    let from : ℕ = min (w.ctx_start * 8) mel in
    let to : ℕ = min (w.ctx_end * 8) mel in
    let order : from < to = omega arith in
    (
      ground arith,
      omega arith,
      subsampled_frames_ceil (to - from) (omega arith) (omega arith) ∙ ap ok (omega arith),
      omega arith,
    )

-- For a window of a plan for the frames that `mel` mel frames make: the mel frames of the window make
-- as many frames as the window has.
pub mel_range-encoded_frames :
    (mel total chunk context : ℕ) (w : ChunkWindow)
    → 0 < mel
    → mel + 7 < usize_range
    → total ≡ (mel + 7) / 8
    → IsWindow total chunk context w
    → (from : ℕ) × (to : ℕ) × (n : ℕ) × (mel_range w mel ≡ ok (from, to))
      × (to ≤ mel)
      × (subsampled_frames (to - from) ≡ ok n)
      × (encoded_frames w ≡ ok n)
unfolding encoded_frames
mel_range-encoded_frames mel total chunk context w h k e p =
    let (range, small, made, order) = mel_range_parts mel total chunk context w h k e p in
    (
      min (w.ctx_start * 8) mel,
      min (w.ctx_end * 8) mel,
      w.ctx_end - w.ctx_start,
      range,
      small,
      made,
      ground arith,
    )
