-- ===== src/Whisper/Decode/Outputs.antt =====
-- The tokens that a transcription returns.
use ocelotl.Common.{
  ℕ, zero, suc, ◌+◌, ◌≤◌, ◌<◌, ◌≡◌, ◌≢◌, refl, ap, ◌∙◌, ◌⊎◌, inl, inr, Bool, Option, none, some,
  List, [], ◌∷◌, ◌++◌, ltb, ◌==◌, arith, length, All, All-append, length-append, Bool-cases,
}
use ocelotl.Core.Errors.{ok, >>=-eq-ok}
use ocelotl.Core.Limits.{RequestLimits, validate_generation}
use ocelotl.Core.Words.{checked_add}
use ocelotl.Core.Tokens.{TokenId}
use ocelotl.Whisper.Tokens.{WhisperDecodeMask, allow, mask_token}
use ocelotl.Whisper.Sampling.{masked_scan, masked_greedy_sample, picked}
use ocelotl.Whisper.Decode.{
  WhisperModel, WhisperDecodeRequest, WhisperTranscriptionResponse, validate_whisper_decode_request,
  decode_loop, decode_whisper_transcription,
}

-- The best so far, if there is one, is allowed.
abbrev BestAllowed : {F : Type 0} → WhisperDecodeMask → Option (ℕ × F) → Type 0
BestAllowed mask none = Unit {0}
BestAllowed mask (some (i, v)) = mask_token mask i ≡ allow

module _ {F : Type 0} (gt : F → F → Bool) (mask : WhisperDecodeMask) where
  masked_scan_allowed :
      (n : ℕ) (best : Option (ℕ × F)) (rest : List F) (found : Option (ℕ × F))
      → BestAllowed mask best
      → masked_scan gt mask n best rest ≡ ok found
      → BestAllowed mask found
  unfolding masked_scan
  masked_scan_allowed n best [] found b h = ground arith
  masked_scan_allowed n best (x ∷ rest) found b h = ground (
    arith,
    masked_scan_allowed (n + 1) (some (n, x)) rest found,
    masked_scan_allowed (n + 1) best rest found b,
  )

  masked_greedy_sample_allowed :
      (logits : List F) (t : TokenId)
      → masked_greedy_sample gt logits mask ≡ ok t
      → mask_token mask t ≡ allow
  unfolding masked_greedy_sample
  masked_greedy_sample_allowed logits t h =
      let (found, ran, pick) = >>=-eq-ok (masked_scan gt mask 0 none logits) _ h in
      chosen found (masked_scan_allowed 0 none logits found tt ran) pick
    where
      chosen :
          (found : Option (ℕ × F))
          → BestAllowed mask found
          → picked gt found ≡ ok t
          → mask_token mask t ≡ allow
      chosen none b e = absurd (ground arith)
      chosen (some (i, v)) b e = ground arith

-- The output of a request: the tokens are allowed, `max_new_tokens` of them at most, and the run
-- ends at the first stop token or at the limit.
pub record IsOutput (request : WhisperDecodeRequest) (tokens : List TokenId) : Type 0 where
  pub before : List TokenId
  pub last : TokenId
  pub shape : tokens ≡ before ++ last ∷ []
  pub allowed : All (λ t. mask_token request.decode_mask t ≡ allow) tokens
  pub going : All (λ t. t ≢ request.stop_token) before
  pub ended : (last ≡ request.stop_token) ⊎ (length tokens ≡ request.max_new_tokens)
  pub most : length tokens ≤ request.max_new_tokens

module _ {F Audio State : Type 0} (gt : F → F → Bool) (model : WhisperModel F Audio State)
    (audio : Audio) (request : WhisperDecodeRequest) where
  -- One round: the loop ends at the stop token, or goes on.
  data Round (rounds : ℕ) (seen : List TokenId) (r : WhisperTranscriptionResponse F) : Type 0 where
    stops :
        (next : TokenId)
        → mask_token request.decode_mask next ≡ allow
        → next ≡ request.stop_token
        → r.tokens ≡ seen ++ next ∷ []
        → Round rounds seen r
    goes_on :
        (next : TokenId) (state : State) (logits : List F)
        → mask_token request.decode_mask next ≡ allow
        → next ≢ request.stop_token
        → decode_loop gt model rounds audio request state (seen ++ next ∷ []) logits ≡ ok r
        → Round rounds seen r

  round_lem :
      (rounds : ℕ) (state : State) (seen : List TokenId) (logits : List F)
      (r : WhisperTranscriptionResponse F)
      → decode_loop gt model (suc rounds) audio request state seen logits ≡ ok r
      → Round rounds seen r
  unfolding decode_loop
  round_lem rounds state seen logits r h =
      let (next, ran, rest) =
        >>=-eq-ok (masked_greedy_sample gt (model.next_token_logits state) request.decode_mask) _
          h in
      let free = masked_greedy_sample_allowed gt request.decode_mask _ next ran in
      elim (Bool-cases (next == request.stop_token)) [
        | inl e ↦ stops next free (ground arith) (ground arith)
        | inr e ↦ elim (Bool-cases (ltb (length (seen ++ next ∷ [])) request.max_new_tokens)) [
          | inl f ↦
              let (state', _, on) =
                >>=-eq-ok (model.append_decoder_token_from_audio audio state next) _
                  (rw (e, f) at rest) in
              goes_on next state' _ free (ground arith) on
          | inr f ↦ goes_on next state _ free (ground arith) (rw (e, f) at rest)
        ]
      ]

  abbrev Free : List TokenId → Type 0
  Free = All (λ t. mask_token request.decode_mask t ≡ allow)

  abbrev Going : List TokenId → Type 0
  Going = All (λ t. t ≢ request.stop_token)

  ends_here :
      (seen : List TokenId) (next : TokenId) (tokens : List TokenId)
      → Free seen
      → Going seen
      → mask_token request.decode_mask next ≡ allow
      → tokens ≡ seen ++ next ∷ []
      → length seen + 1 ≤ request.max_new_tokens
      → (next ≡ request.stop_token) ⊎ (length seen + 1 ≡ request.max_new_tokens)
      → IsOutput request tokens
  ends_here seen next tokens f g a e h why =
      let n : length tokens ≡ length seen + 1 = ap length e ∙ length-append seen (next ∷ []) in
      record {
        before = seen;
        last = next;
        shape = e;
        allowed = rw e (All-append _ seen (next ∷ []) f (a, tt));
        going = g;
        ended = elim why [ inl s ↦ inl s | inr s ↦ inr (n ∙ s) ];
        most = omega (arith, n);
      }

  decode_loop-IsOutput :
      (rounds : ℕ) (state : State) (seen : List TokenId) (logits : List F)
      (r : WhisperTranscriptionResponse F)
      → Free seen
      → Going seen
      → length seen + suc rounds ≡ request.max_new_tokens
      → decode_loop gt model (suc rounds) audio request state seen logits ≡ ok r
      → IsOutput request r.tokens
  unfolding decode_loop
  decode_loop-IsOutput zero state seen logits r f g n h =
      elim (round_lem zero state seen logits r h) [
        | stops next a s e ↦ ends_here seen next r.tokens f g a e (omega arith) (inl s)
        | goes_on next _ _ a s e ↦
            ends_here seen next r.tokens f g a (ground arith) (omega arith) (inr (omega arith))
      ]
  decode_loop-IsOutput (suc rounds) state seen logits r f g n h =
      elim (round_lem (suc rounds) state seen logits r h) [
        | stops next a s e ↦ ends_here seen next r.tokens f g a e (omega arith) (inl s)
        | goes_on next new_state new_logits a s e ↦
            decode_loop-IsOutput rounds new_state (seen ++ next ∷ []) new_logits r
              (All-append _ seen (next ∷ []) f (a, tt)) (All-append _ seen (next ∷ []) g (s, tt))
              (omega (arith, length-append seen (next ∷ []))) e
      ]

  validated :
      (limits : RequestLimits)
      → validate_whisper_decode_request gt model request limits ≡ ok tt
      → (0 < request.max_new_tokens)
        × (length request.decoder_prompt_tokens + request.max_new_tokens
            ≤ model.text_context_length)
  unfolding validate_whisper_decode_request validate_generation checked_add
  validated limits h = ground arith

  -- A decode that succeeds returns one token at least and as many as asked for at most, all of them
  -- allowed by the mask. It ends with the first stop token, or at the limit; and with the prompt the
  -- tokens fit into the model's context.
  pub decode_outputs :
      (can_reserve : ℕ → Bool) (limits : RequestLimits) (r : WhisperTranscriptionResponse F)
      → decode_whisper_transcription gt model can_reserve audio request limits ≡ ok r
      → IsOutput request r.tokens
        × (length request.decoder_prompt_tokens + length r.tokens ≤ model.text_context_length)
  unfolding decode_whisper_transcription
  decode_outputs can_reserve limits r h =
      let (_, valid, h1) =
        >>=-eq-ok (validate_whisper_decode_request gt model request limits) _ h in
      let (state, _, h2) =
        >>=-eq-ok (model.prepare_decoder_state_from_audio audio request.decoder_prompt_tokens) _
          h1 in
      let (pos, fits) = validated limits (ground arith) in
      let out = whole request.max_new_tokens pos refl state (ground arith) in
      (out, omega (arith, out.most))
    where
      whole :
          (n : ℕ)
          → 0 < n
          → n ≡ request.max_new_tokens
          → (state : State) → decode_loop gt model n audio request state [] [] ≡ ok r
          → IsOutput request r.tokens
      whole zero p e state ran = absurd (omega arith)
      whole (suc n) p e state ran = decode_loop-IsOutput n state [] [] r tt tt (omega arith) ran
