-- ===== src/Core/Limits.antt =====
-- crates/core/src/limits.rs: the ceilings for one request, `RequestLimits`.
pub mod Accepts
use ocelotl.Common.{ℕ, ◌*◌, ◌||◌, Option, some, String, ltb, ◌==◌, if◌then◌else◌}
use ocelotl.Core.Errors.{Result, ok, err, ◌>>=◌, ◌>>◌, ok_or, invalid_request_err}
use ocelotl.Core.Words.{checked_add}

pub record RequestLimits : Type 0 where
  pub max_prompt_tokens : ℕ
  pub max_new_tokens : ℕ
  pub max_context_tokens : ℕ
  pub max_audio_samples : ℕ

abbrev pub default_limits : RequestLimits
default_limits = record {
  max_prompt_tokens = 131_072;
  max_new_tokens = 4_096;
  max_context_tokens = 131_072;
  max_audio_samples = 30 * 16_000;
}

unfoldable pub validate : RequestLimits → Result (Unit {0})
validate l =
    if l.max_prompt_tokens == 0
      || l.max_new_tokens == 0
      || l.max_context_tokens == 0
      || l.max_audio_samples == 0
    then err (invalid_request_err "request_limits" "all request limits must be greater than zero")
    else (if ltb l.max_context_tokens l.max_prompt_tokens
        then err (
            invalid_request_err "request_limits.max_prompt_tokens"
              "max_prompt_tokens {} exceeds max_context_tokens {}")
        else (if ltb l.max_context_tokens l.max_new_tokens
            then err (
                invalid_request_err "request_limits.max_new_tokens"
                  "max_new_tokens {} exceeds max_context_tokens {}")
            else ok tt))

unfoldable pub validate_generation : RequestLimits → ℕ → ℕ → Result ℕ
validate_generation l prompt_tokens max_new_tokens = do
  validate l
  context_tokens ←
      ok_or (checked_add prompt_tokens max_new_tokens)
        (invalid_request_err "context_tokens" "prompt_tokens + max_new_tokens overflows usize")
  if ltb l.max_prompt_tokens prompt_tokens
      then err (
          invalid_request_err "prompt_tokens"
            "prompt token count {prompt_tokens} exceeds configured limit {}")
      else (if ltb l.max_new_tokens max_new_tokens
          then err (
              invalid_request_err "max_new_tokens"
                "requested {max_new_tokens} exceeds configured limit {}")
          else (if ltb l.max_context_tokens context_tokens
              then err (
                  invalid_request_err "context_tokens"
                    "prompt_tokens + max_new_tokens exceeds configured limit {}")
              else ok context_tokens))

unfoldable pub validate_audio_samples : RequestLimits → ℕ → Result (Unit {0})
validate_audio_samples l audio_samples = do
  validate l
  if ltb l.max_audio_samples audio_samples
      then err (
          invalid_request_err "audio_samples"
            "audio sample count {audio_samples} exceeds configured limit {}")
      else ok tt
