-- ===== src/Core/Limits/Accepts.antt =====
-- Exactly which requests `RequestLimits` lets through.
use ocelotl.Common.{ℕ, ◌+◌, ◌≤◌, ◌<◌, ◌≡◌, ◌↔◌, arith}
use ocelotl.Core.Errors.{ok}
use ocelotl.Core.Words.{checked_add, usize_range}
use ocelotl.Core.Limits.{RequestLimits, validate, validate_generation, validate_audio_samples}

-- A policy that `validate` accepts.
pub record IsConsistent (l : RequestLimits) : Type 0 where
  pub prompt_pos : 0 < l.max_prompt_tokens
  pub new_pos : 0 < l.max_new_tokens
  pub context_pos : 0 < l.max_context_tokens
  pub audio_pos : 0 < l.max_audio_samples
  pub prompt_fits : l.max_prompt_tokens ≤ l.max_context_tokens
  pub new_fits : l.max_new_tokens ≤ l.max_context_tokens

validate→IsConsistent : (l : RequestLimits) → validate l ≡ ok tt → IsConsistent l
unfolding validate
validate→IsConsistent l h = ground arith

IsConsistent→validate : (l : RequestLimits) → IsConsistent l → validate l ≡ ok tt
unfolding validate
IsConsistent→validate l c = ground arith

-- `validate` accepts a policy exactly when every ceiling is positive and the prompt and output
-- ceilings lie within the context ceiling.
pub validate_iff : (l : RequestLimits) → (validate l ≡ ok tt) ↔ IsConsistent l
validate_iff l = (validate→IsConsistent l, IsConsistent→validate l)

record Fits (l : RequestLimits) (prompt new total : ℕ) : Type 0 where
  policy : validate l ≡ ok tt
  sum : total ≡ prompt + new
  prompt_le : prompt ≤ l.max_prompt_tokens
  new_le : new ≤ l.max_new_tokens
  total_le : prompt + new ≤ l.max_context_tokens

generation→Fits :
    (l : RequestLimits) (prompt new total : ℕ)
    → validate_generation l prompt new ≡ ok total
    → Fits l prompt new total
unfolding validate_generation checked_add
generation→Fits l prompt new total h = ground arith

Fits→generation :
    (l : RequestLimits) (prompt new total : ℕ)
    → l.max_context_tokens < usize_range
    → Fits l prompt new total
    → validate_generation l prompt new ≡ ok total
unfolding validate_generation checked_add
Fits→generation l prompt new total w f = ground arith

-- Where the context ceiling is a `usize`, a generation request is accepted with the total `total`
-- exactly when the policy is consistent, `total` is the sum of prompt and output, and prompt,
-- output and total lie within their ceilings.
pub validate_generation_iff :
    (l : RequestLimits) (prompt new total : ℕ)
    → l.max_context_tokens < usize_range
    → (validate_generation l prompt new ≡ ok total) ↔ (
        IsConsistent l
        × (total ≡ prompt + new)
        × (prompt ≤ l.max_prompt_tokens)
        × (new ≤ l.max_new_tokens)
        × (total ≤ l.max_context_tokens))
validate_generation_iff l prompt new total w = (forth, back)
  where
    forth :
        validate_generation l prompt new ≡ ok total
        → IsConsistent l
          × (total ≡ prompt + new)
          × (prompt ≤ l.max_prompt_tokens)
          × (new ≤ l.max_new_tokens)
          × (total ≤ l.max_context_tokens)
    forth h =
        let f = generation→Fits l prompt new total h in
        (
          validate→IsConsistent l f.policy,
          f.sum,
          f.prompt_le,
          f.new_le,
          omega (arith, f.sum, f.total_le),
        )

    back :
        IsConsistent l
          × (total ≡ prompt + new)
          × (prompt ≤ l.max_prompt_tokens)
          × (new ≤ l.max_new_tokens)
          × (total ≤ l.max_context_tokens)
        → validate_generation l prompt new ≡ ok total
    back (c, s, p, n, t) = Fits→generation l prompt new total w (record {
      policy = IsConsistent→validate l c;
      sum = s;
      prompt_le = p;
      new_le = n;
      total_le = omega arith;
    })

-- Audio is accepted exactly when the policy is consistent and the samples lie within the ceiling.
pub validate_audio_samples_iff :
    (l : RequestLimits) (samples : ℕ)
    → (validate_audio_samples l samples ≡ ok tt)
      ↔ (IsConsistent l × (samples ≤ l.max_audio_samples))
unfolding validate_audio_samples
validate_audio_samples_iff l samples = (
  λ h. (validate→IsConsistent l (ground arith), ground arith),
  λ c. ground (arith, IsConsistent→validate l c.0),
)
