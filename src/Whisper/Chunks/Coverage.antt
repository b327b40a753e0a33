-- ===== src/Whisper/Chunks/Coverage.antt =====
-- The chunks that `plan_transcription_chunks` plans, and the samples they cover.
use mathlib.Core.List.{append_assoc}
use ocelotl.Common.{
  ℕ, zero, suc, ◌+◌, ◌-◌, ◌*◌, ◌≤◌, ◌<◌, ◌≡◌, refl, sym, ap, ◌∙◌, ◌⊎◌, inl, inr, true, false, some,
  List, [], ◌∷◌, ◌++◌, min, leb, ◌==◌, arith, length, length-append, All, trichotomy, Bool-cases,
}
use ocelotl.Core.Errors.{ok, ◌>>◌}
use ocelotl.Core.Words.{checked_add, usize_range}
use ocelotl.Whisper.Audio.{validate_audio_metadata}
use ocelotl.Whisper.Chunks.{
  ChunkedTranscriptionRequest, TranscriptionChunk, validate_chunk_request, seconds_for_samples,
  next_chunk, plan_loop, plan_transcription_chunks,
}

-- A request that the two validations accept, on a machine where a recording fits into half of the
-- address space.
pub record IsPlannable {F : Type 0} (request : ChunkedTranscriptionRequest F) : Type 0 where
  pub rate : request.audio_metadata.sample_rate_hz ≡ 16_000
  pub mono : request.audio_metadata.channels ≡ 1
  pub some_audio : 0 < length request.audio_samples
  pub audio_fits : 2 * length request.audio_samples ≤ usize_range
  pub window_fits : request.chunking.window_samples < usize_range
  pub overlap_lt : request.chunking.overlap_samples < request.chunking.window_samples

module _ {F : Type 0} (request : ChunkedTranscriptionRequest F) where
  abbrev window : ℕ
  window = request.chunking.window_samples

  abbrev overlap : ℕ
  overlap = request.chunking.overlap_samples

  abbrev audio_len : ℕ
  audio_len = length request.audio_samples

  module _ {D : Type 0} where
    -- A chunk has a sample at least, a window at most, and lies within the audio.
    abbrev pub InBounds : TranscriptionChunk D → Type 0
    InBounds c =
        (c.start_sample < c.end_sample)
        × (c.end_sample ≤ c.start_sample + window)
        × (c.end_sample ≤ audio_len)

    -- From one chunk to the next: they share the overlap, and only the last one reaches the end.
    abbrev pub Linked : TranscriptionChunk D → List (TranscriptionChunk D) → Type 0
    Linked c [] = (c.is_last ≡ true) × (c.end_sample ≡ audio_len)
    Linked c (d ∷ ds) =
        (c.is_last ≡ false)
        × (d.start_sample + overlap ≡ c.end_sample)
        × (d.index ≡ c.index + 1)
        × Linked d ds

    -- A sample lies in one of the chunks.
    abbrev pub Covered : ℕ → List (TranscriptionChunk D) → Type 0
    Covered j [] = ⊥
    Covered j (c ∷ cs) = ((c.start_sample ≤ j) × (j < c.end_sample)) ⊎ Covered j cs

    Linked→Covered :
        (c : TranscriptionChunk D) (cs : List (TranscriptionChunk D)) (j : ℕ)
        → Linked c cs
        → c.start_sample ≤ j
        → j < audio_len
        → Covered j (c ∷ cs)
    Linked→Covered c [] j l h k = inl (h, omega (arith, l.1))
    Linked→Covered c (d ∷ ds) j (a, b, i, l) h k = elim (trichotomy j c.end_sample) [
      | inl p ↦ inl (h, p)
      | inr (inl p) ↦ inr (Linked→Covered d ds j l (omega arith) k)
      | inr (inr p) ↦ inr (Linked→Covered d ds j l (omega arith) k)
    ]

    module _ (quotient : ℕ → ℕ → D) (v : IsPlannable request) where
      -- The chunk from `start` on.
      abbrev chunk_at : ℕ → ℕ → TranscriptionChunk D
      chunk_at index start =
          let end_sample = min (start + window) audio_len in
          record {
            index = index;
            start_sample = start;
            end_sample = end_sample;
            start_seconds = quotient start request.audio_metadata.sample_rate_hz;
            end_seconds = quotient end_sample request.audio_metadata.sample_rate_hz;
            is_last = end_sample == audio_len;
          }

      next_chunk_lem :
          (index start : ℕ)
          → start + window < usize_range
          → next_chunk quotient request index start ≡ ok (chunk_at index start)
      unfolding next_chunk seconds_for_samples checked_add
      next_chunk_lem index start h = ground (arith, v.rate)

      last_lem :
          (fuel start : ℕ) (chunks : List (TranscriptionChunk D))
          → start + window < usize_range
          → audio_len ≤ start + window
          → plan_loop quotient (suc fuel) request start chunks
            ≡ some (ok (chunks ++ chunk_at (length chunks) start ∷ []))
      unfolding plan_loop
      last_lem fuel start chunks h k =
          let e : (min (start + window) audio_len == audio_len) ≡ true = ground arith in
          rw (next_chunk_lem (length chunks) start h, plan_loop, e) refl

      step_lem :
          (start : ℕ)
          → start + window < usize_range
          → checked_add start (window - overlap) ≡ some (start + (window - overlap))
      unfolding checked_add
      step_lem start h = ground arith

      goes_on_lem :
          (fuel start n : ℕ) (chunks : List (TranscriptionChunk D)) (c : TranscriptionChunk D)
          → next_chunk quotient request (length chunks) start ≡ ok c
          → c.is_last ≡ false
          → checked_add start (window - overlap) ≡ some n
          → plan_loop quotient (suc fuel) request start chunks
            ≡ plan_loop quotient fuel request n (chunks ++ c ∷ [])
      unfolding plan_loop
      goes_on_lem fuel start n chunks c h e k = cc

      more_lem :
          (fuel start : ℕ) (chunks : List (TranscriptionChunk D))
          → start + window < usize_range
          → start + window < audio_len
          → plan_loop quotient (suc fuel) request start chunks
            ≡ plan_loop quotient fuel request
                (start + (window - overlap))
                (chunks ++ chunk_at (length chunks) start ∷ [])
      more_lem fuel start chunks h k =
          goes_on_lem fuel start (start + (window - overlap)) chunks
            (chunk_at (length chunks) start) (next_chunk_lem (length chunks) start h) (ground arith)
            (step_lem start h)

      -- A run of chunks that starts at a sample and an index, and is linked to the end.
      record IsRun (start index : ℕ) (cs : List (TranscriptionChunk D)) : Type 0 where
        head : TranscriptionChunk D
        rest : List (TranscriptionChunk D)
        shape : cs ≡ head ∷ rest
        starts : head.start_sample ≡ start
        numbered : head.index ≡ index
        linked : Linked head rest
        bounds : All InBounds (head ∷ rest)

      last-IsRun :
          (start index : ℕ)
          → start < audio_len
          → audio_len ≤ start + window
          → IsRun start index (chunk_at index start ∷ [])
      last-IsRun start index h k = record {
        head = chunk_at index start;
        rest = [];
        shape = refl;
        starts = refl;
        numbered = refl;
        linked = (ground arith, omega arith);
        bounds = ((omega arith, omega arith, omega arith), tt);
      }

      more-IsRun :
          (start index : ℕ) (cs : List (TranscriptionChunk D))
          → start + window < audio_len
          → IsRun (start + (window - overlap)) (index + 1) cs
          → IsRun start index (chunk_at index start ∷ cs)
      more-IsRun start index cs h r =
          let link : Linked (chunk_at index start) (r.head ∷ r.rest) =
            (ground arith, omega (arith, r.starts, v.overlap_lt), r.numbered, r.linked) in
          let inside : All InBounds (chunk_at index start ∷ r.head ∷ r.rest) =
            ((omega (arith, v.overlap_lt), omega arith, omega arith), r.bounds) in
          record {
            head = chunk_at index start;
            rest = cs;
            shape = refl;
            starts = refl;
            numbered = refl;
            linked = rw r.shape link;
            bounds = rw r.shape inside;
          }

      plan_loop-IsRun :
          (fuel start : ℕ) (chunks : List (TranscriptionChunk D))
          → start < audio_len
          → audio_len < start + fuel
          → start + window < usize_range
          → (cs : List (TranscriptionChunk D)) × (plan_loop quotient fuel request start chunks
              ≡ some (ok (chunks ++ cs)))
            × IsRun start (length chunks) cs
      plan_loop-IsRun zero start chunks h k f = absurd (omega arith)
      plan_loop-IsRun (suc fuel) start chunks h k f =
          elim (Bool-cases (leb audio_len (start + window))) [
            | inl e ↦
                let reach : audio_len ≤ start + window = ground arith in
                (_, last_lem fuel start chunks f reach, last-IsRun start (length chunks) h reach)
            | inr e ↦
                let short : start + window < audio_len = ground arith in
                let now = chunk_at (length chunks) start in
                let (cs, ran, r) =
                  plan_loop-IsRun fuel (start + (window - overlap)) (chunks ++ now ∷ [])
                    (omega (arith, v.overlap_lt)) (omega (arith, v.overlap_lt))
                    (omega (arith, v.overlap_lt, v.audio_fits)) in
                (
                  now ∷ cs,
                  more_lem fuel start chunks f short
                      ∙ ran
                      ∙ ap (λ l. some (ok l)) (append_assoc chunks (now ∷ []) cs),
                  more-IsRun start (length chunks) cs short
                      (rw (sym (length-append chunks (now ∷ []))) r),
                )
          ]

      accepted_lem :
          (validate_audio_metadata request.audio_metadata >> validate_chunk_request request) ≡ ok tt
      unfolding validate_audio_metadata validate_chunk_request
      accepted_lem = ground (arith, v)

      -- A plannable request gets a plan. Every sample of the audio lies in one of its chunks; each
      -- chunk has a sample at least and a window at most and lies within the audio; the first chunk
      -- starts at 0 and has index 0, and each further one has the next index and shares the overlap
      -- with the one before; the last one ends with the audio, and it alone is marked as the last.
      pub plan_covers_audio :
          (c : TranscriptionChunk D) × (cs : List (TranscriptionChunk D))
          × (plan_transcription_chunks quotient request ≡ some (ok (c ∷ cs)))
          × ((j : ℕ) → j < audio_len → Covered j (c ∷ cs))
          × All InBounds (c ∷ cs)
          × (c.start_sample ≡ 0)
          × (c.index ≡ 0)
          × Linked c cs
      unfolding plan_transcription_chunks
      plan_covers_audio =
          let (cs, ran, r) =
            plan_loop-IsRun (audio_len + 1) 0 [] v.some_audio (omega arith)
              (omega (arith, v.window_fits)) in
          (
            r.head,
            r.rest,
            rw (accepted_lem, plan_transcription_chunks) (ran ∙ ap (λ l. some (ok l)) r.shape),
            (λ j h. Linked→Covered r.head r.rest j r.linked (omega (arith, r.starts)) h),
            r.bounds,
            r.starts,
            r.numbered,
            r.linked,
          )
