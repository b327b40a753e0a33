-- ===== src/Whisper/Sampling.antt =====
-- crates/runtime/src/sampling.rs, `greedy_sample`, and crates/runtime/src/whisper/transcribe.rs,
-- `masked_greedy_sample`. A logit is of an abstract type `F` that stands for `f32`, compared by `gt`,
-- the operator `>`.
pub mod Argmax
pub mod Choice
use ocelotl.Common.{
  ℕ, ◌+◌, ◌%◌, ◌^◌, Bool, true, false, ◌&&◌, Option, none, some, List, [], ◌∷◌, ltb, if◌then◌else◌,
}
use ocelotl.Core.Errors.{Result, ok, err, panic, ◌>>=◌, runtime_err}
use ocelotl.Core.Tokens.{TokenId}
use ocelotl.Whisper.Tokens.{WhisperDecodeMask, mask_token, is_allowed}

abbrev pub u32_range : ℕ
u32_range = 2 ^ 32

module _ {F : Type 0} (gt : F → F → Bool) where
  -- The scan over the logits from the second on.
  unfoldable pub scan : ℕ → ℕ → F → List F → ℕ
  scan idx best_idx best_val [] = best_idx
  scan idx best_idx best_val (val ∷ logits) =
      if gt val best_val
      then scan (idx + 1) idx val logits
      else scan (idx + 1) best_idx best_val logits

  unfoldable pub greedy_sample : List F → Result TokenId
  greedy_sample [] = err (runtime_err "greedy_sample requires at least one logit")
  greedy_sample (first ∷ logits) = ok (scan 1 0 first logits % u32_range)

  -- `best.is_none_or(..)`.
  abbrev pub improves : Option (ℕ × F) → F → Bool
  improves none logit = true
  improves (some (i, best_logit)) logit = gt logit best_logit

  -- The loop over the logits, from index `idx` on.
  unfoldable pub masked_scan :
      WhisperDecodeMask → ℕ → Option (ℕ × F) → List F → Result (Option (ℕ × F))
  masked_scan mask idx best [] = ok best
  masked_scan mask idx best (logit ∷ logits) =
      if ltb idx u32_range
      then (if is_allowed (mask_token mask idx) && improves best logit
          then masked_scan mask (idx + 1) (some (idx, logit)) logits
          else masked_scan mask (idx + 1) best logits)
      else err (runtime_err "logit index {idx} does not fit in TokenId")

  abbrev pub picked : Option (ℕ × F) → Result TokenId
  picked none = err (runtime_err "Whisper decode mask suppressed every logit")
  picked (some (idx, logit)) =
      if ltb idx u32_range
      then ok idx
      else err (runtime_err "logit index {idx} does not fit in TokenId")

  unfoldable pub masked_greedy_sample : List F → WhisperDecodeMask → Result TokenId
  masked_greedy_sample logits mask = masked_scan mask 0 none logits >>= picked
