-- ===== src/Parakeet/Frames.antt =====
-- crates/models/src/parakeet: how many frames the frontend and the subsampler make, with
-- crates/kernels/src/conv.rs, `conv_out_len`. A sum or a product that does not fit a `usize` panics,
-- as in a build with overflow checks.
use ocelotl.Common.{ℕ, ◌+◌, ◌-◌, ◌*◌, ◌/◌, ◌<◌, ◌≡◌, arith}
use ocelotl.Core.Errors.{Result, ok, ◌>>=◌}
use ocelotl.Core.Panics.{or_overflow}
use ocelotl.Core.Words.{usize_range}

unfoldable pub conv_out_len : ℕ → ℕ → ℕ → ℕ → Result ℕ
conv_out_len input kernel stride padding = do
  padded ← or_overflow (input + 2 * padding)
  or_overflow ((padded - kernel) / stride + 1)

-- `PARAKEET_HOP_LENGTH`.
abbrev pub hop_length : ℕ
hop_length = 160

unfoldable pub frame_count : ℕ → ℕ
frame_count samples = samples / hop_length + 1

-- The three stages.
unfoldable pub subsampled_frames : ℕ → Result ℕ
subsampled_frames frames = do
  t ← conv_out_len frames 3 2 1
  t' ← conv_out_len t 3 2 1
  conv_out_len t' 3 2 1

unfoldable pub total_frames_for_samples : ℕ → Result ℕ
total_frames_for_samples samples = subsampled_frames (frame_count samples)

-- For at least one mel frame, and as long as the padding fits a `usize`: the subsampler makes one
-- frame of every 8, and one of what is left over.
pub subsampled_frames_ceil :
    (n : ℕ) → 0 < n → n + 2 < usize_range → subsampled_frames n ≡ ok ((n + 7) / 8)
unfolding subsampled_frames conv_out_len
subsampled_frames_ceil n h k = ground arith
