-- ===== src/Parakeet/Audio.antt =====
-- crates/models/src/parakeet/audio.rs: the features of a recording, as far as their number and their
-- errors go. Their values are floats and are left out, and so is what computes them once their vector
-- is there; it does not fail. `can_reserve what n` says whether room for `n` samples is found.
use ocelotl.Common.{
  ℕ, ◌+◌, ◌*◌, ◌/◌, ◌≤◌, ◌<◌, ◌≡◌, Bool, true, none, some, List, String, leb, if◌then◌else◌, arith,
  length,
}
use ocelotl.Core.Errors.{
  Result, ok, err, panic, ◌>>=◌, ◌>>◌, ok_or, runtime_err, invalid_request_err,
}
use ocelotl.Core.Panics.{isize_max, allocated}
use ocelotl.Core.Words.{usize_range, checked_add, checked_mul}
use ocelotl.Parakeet.Frames.{frame_count}

abbrev pub parakeet_n_fft : ℕ
parakeet_n_fft = 512

abbrev pub parakeet_mel_bins : ℕ
parakeet_mel_bins = 128

module _ (can_reserve : String → ℕ → Bool) where
  unfoldable pub try_reserve : String → ℕ → Result (Unit {0})
  try_reserve what n =
      if can_reserve what n
      then ok tt
      else err (runtime_err "failed to reserve Parakeet {what}: {source}")

module _ {S : Type 0} (can_reserve : String → ℕ → Bool) where
  -- Whether the samples can be copied with `pad` more on each side; fewer samples are out of range.
  unfoldable pub reflect_pad_centered : List S → ℕ → Result (Unit {0})
  reflect_pad_centered audio pad = elim (checked_add (length audio) (2 * pad)) [
    | none ↦ err (invalid_request_err "audio.samples" "reflect padding overflows usize")
    | some centered_len ↦
        try_reserve can_reserve "reflect padding" centered_len
        >> (if leb (length audio) pad then panic else ok tt)
  ]

  -- The number of the mel frames. A value of the features has 4 bytes.
  unfoldable pub parakeet_log_mel : List S → Result ℕ
  parakeet_log_mel audio =
      if leb (length audio) (parakeet_n_fft / 2)
      then err (
          invalid_request_err "audio.samples"
            "Parakeet preprocessing requires more than {pad} samples for reflect padding")
      else (do
        try_reserve can_reserve "pre-emphasis" (length audio)
        reflect_pad_centered audio (parakeet_n_fft / 2)
        value_count ←
            ok_or (checked_mul (frame_count (length audio)) parakeet_mel_bins)
              (invalid_request_err "audio.samples" "Parakeet feature length overflows usize")
        allocated (4 * value_count) (frame_count (length audio)))

  -- A recording of more than 256 samples, for which there is room.
  pub record IsRecording (audio : List S) : Type 0 where
    pub long : 256 < length audio
    pub padded : length audio + 512 < usize_range
    pub reserved : can_reserve "pre-emphasis" (length audio) ≡ true
    pub reserved_padded : can_reserve "reflect padding" (length audio + 512) ≡ true
    pub room : 4 * (frame_count (length audio) * parakeet_mel_bins) ≤ isize_max

  pub parakeet_log_mel_ok :
      (audio : List S)
      → IsRecording audio
      → parakeet_log_mel audio ≡ ok (frame_count (length audio))
  unfolding parakeet_log_mel reflect_pad_centered try_reserve checked_add checked_mul
  parakeet_log_mel_ok audio h =
      let long : 256 < length audio = h.long in
      let padded : length audio + 512 < usize_range = h.padded in
      let reserved : can_reserve "pre-emphasis" (length audio) ≡ true = h.reserved in
      let reserved_padded : can_reserve "reflect padding" (length audio + 512) ≡ true =
        h.reserved_padded in
      let room : 4 * (frame_count (length audio) * parakeet_mel_bins) ≤ isize_max = h.room in
      ground arith
