-- ===== src/Parakeet/Decoder/Limits.antt =====
-- How many iterations the decoding takes.
use ocelotl.Common.{
  ℕ, zero, suc, ◌+◌, ◌*◌, ◌≤◌, ◌<◌, ◌≡◌, refl, ap, ◌∙◌, inl, inr, Bool, false, ◌||◌, some, List, [],
  ◌∷◌, ◌++◌, leb, ltb, subst, sym, ◌==◌, arith, Bool-cases, length, length-append, All,
}
use native.Mathlib.Nat.{mul-le-mul_right}
use ocelotl.Core.Errors.{Result, ok}
use ocelotl.Core.Words.{usize_range}
use ocelotl.Parakeet.Decoder.Answers.{IsFed, evaluate_ok}
use ocelotl.Parakeet.Decoder.{
  TdtStep, TdtDecode, TdtConfig, Machine, last_or, vocab_size, num_durations, joint_width, emit,
  advance, decode_step, decode_loop, initial, greedy_decode,
}

steps_more :
    (xs ys : List TdtStep) (x : TdtStep) → ys ≡ xs ++ (x ∷ []) → length ys ≡ suc (length xs)
steps_more xs ys x e = ap length e ∙ length-append xs (x ∷ []) ∙ (omega arith)

last_or-append : (start : ℕ) (xs : List ℕ) (x : ℕ) → last_or start (xs ++ (x ∷ [])) ≡ x
last_or-append start [] x = refl
last_or-append start (y ∷ xs) x = last_or-append y xs x

module _ {F : Type 0} (gt : F → F → Bool) (neg_infinity : F) where
  module _ {S P : Type 0} (prednet_step : ℕ → S → Result (P × S))
      (joint_step : ℕ → P → Result (List F)) (config : TdtConfig) (frames : ℕ)
      (IsState : S → Type 0) (IsOutput : P → Type 0)
      (predicts : (token : ℕ) (s : S)
        → token < vocab_size
        → IsState s
        → (p : P) × (s' : S) × (prednet_step token s ≡ ok (p, s')) × IsOutput p × IsState s')
      (joins : (t : ℕ) (p : P)
        → t < frames
        → IsOutput p
        → (logits : List F) × (joint_step t p ≡ ok logits) × (length logits ≡ joint_width))
      (some_durations : length config.durations ≡ num_durations)
      (short_durations : All (λ d. frames + d < usize_range) config.durations)
      (some_tokens : 0 < config.max_tokens_per_step) where
    -- The iterations so far, `m.emitted` of them at the frame `m.t`.
    record IsBounded (m : Machine S) : Type 0 where
      pub few : length m.out.steps ≤ m.t * config.max_tokens_per_step + m.emitted
      pub budget : m.emitted < config.max_tokens_per_step
      pub all : length m.out.steps ≤ frames * config.max_tokens_per_step

    -- From where the step is recorded.
    advance_from :
        (e : Machine S) (step : TdtStep)
        → e.t < frames
        → length e.out.steps ≤ e.t * config.max_tokens_per_step + config.max_tokens_per_step
        → length e.out.steps ≤ frames * config.max_tokens_per_step
        → ((step.token == config.blank) ≡ false
            → (length e.out.steps ≤ e.t * config.max_tokens_per_step + e.emitted)
              × (e.emitted ≤ config.max_tokens_per_step))
        → frames + step.duration < usize_range
        → (m' : Machine S) × (advance gt neg_infinity prednet_step joint_step config e step ≡ ok m')
          × IsBounded m'
          × (m'.out ≡ e.out)
          × (m'.state ≡ e.state)
    unfolding advance
    advance_from e step h few all stalls short = elim (Bool-cases (ltb 0 step.duration)) [
      | inl moves ↦
          let M : ℕ = config.max_tokens_per_step in
          let whole : (e.t + 1) * M ≡ e.t * M + M = omega arith in
          let further : (e.t + 1) * M ≤ (e.t + step.duration) * M =
            mul-le-mul_right M (ground arith) in
          (
            record e { t = e.t + step.duration; emitted = 0 },
            ground arith,
            record { few = omega arith; budget = some_tokens; all = all },
            refl,
            refl,
          )
      | inr stays ↦
          elim (Bool-cases
            (step.token == config.blank || e.emitted == config.max_tokens_per_step)) [
              | inl forced ↦
                  let M : ℕ = config.max_tokens_per_step in
                  let whole : (e.t + 1) * M ≡ e.t * M + M = omega arith in
                  (
                    record e { t = e.t + 1; emitted = 0 },
                    ground arith,
                    record { few = omega arith; budget = some_tokens; all = all },
                    refl,
                    refl,
                  )
              | inr free ↦
                  let not_blank : (step.token == config.blank) ≡ false = ground arith in
                  let (room, budget) = stalls not_blank in
                  (
                    e,
                    ground arith,
                    record { few = room; budget = ground arith; all = all },
                    refl,
                    refl,
                  )
            ]
    ]

    -- The step recorded, and what the network is fed with behind it.
    emit_ok :
        (m : Machine S) (step : TdtStep) (next : S)
        → IsFed config IsState m
        → step.token < vocab_size
        → IsState next
        → (e : Machine S) × (emit gt neg_infinity prednet_step joint_step config m step next ≡ e)
          × (e.t ≡ m.t)
          × (e.out.steps ≡ m.out.steps ++ (step ∷ []))
          × ((step.token == config.blank) ≡ false → e.emitted ≡ m.emitted + 1)
          × IsFed config IsState e
    unfolding emit
    emit_ok m step next fed token good = elim (Bool-cases (step.token == config.blank)) [
      | inl blank ↦ (
        record m {
          out = record {
            tokens = m.out.tokens;
            frames = m.out.frames;
            steps = m.out.steps ++ (step ∷ []);
          };
        },
        rw (blank, emit) refl,
        refl,
        refl,
        λ other. absurd (cc),
        record { state = fed.state; token = fed.token },
      )
      | inr other ↦ (
        record {
          state = next;
          out = record {
            tokens = m.out.tokens ++ (step.token ∷ []);
            frames = m.out.frames ++ (m.t ∷ []);
            steps = m.out.steps ++ (step ∷ []);
          };
          t = m.t;
          emitted = m.emitted + 1;
        },
        rw (other, emit) refl,
        refl,
        refl,
        λ _. refl,
        record {
          state = good;
          token =
              subst (λ x. x < vocab_size)
                (sym (last_or-append config.blank m.out.tokens step.token)) token;
        },
      )
    ]

    -- Time moves on, or the frame has one emission more.
    advance_ok :
        (m : Machine S) (step : TdtStep) (next : S)
        → m.t < frames
        → IsBounded m
        → IsFed config IsState m
        → step.token < vocab_size
        → IsState next
        → frames + step.duration < usize_range
        → (m' : Machine S) × (advance gt neg_infinity prednet_step joint_step config
              (emit gt neg_infinity prednet_step joint_step config m step next)
              step
            ≡ ok m')
          × IsBounded m'
          × IsFed config IsState m'
          × (length m'.out.steps ≡ suc (length m.out.steps))
    advance_ok m step next h b fed token good short =
        let (e, emitted, at_t, steps, counted, fed') = emit_ok m step next fed token good in
        let M : ℕ = config.max_tokens_per_step in
        let more : length e.out.steps ≡ suc (length m.out.steps) =
          omega (arith, steps_more m.out.steps e.out.steps step steps) in
        let whole : (m.t + 1) * M ≡ m.t * M + M = omega arith in
        let at_frame : (m.t + 1) * M ≤ frames * M = mul-le-mul_right M (omega arith) in
        let same : e.t * M ≡ m.t * M = ap (λ t. t * M) at_t in
        let (m', advanced, b', kept, same_state) =
          advance_from e step (omega arith) (omega (arith, more, b.few, b.budget, whole, same))
            (omega (arith, more, b.few, b.budget, whole, at_frame))
            (λ not_blank.
              let one_more = counted not_blank in
              (omega (arith, more, b.few, same, one_more), omega (arith, b.budget, one_more)))
            short in
        (
          m',
          rw emitted advanced,
          b',
          record {
            state = subst IsState (sym same_state) fed'.state;
            token =
                subst (λ (o : TdtDecode). last_or config.blank o.tokens < vocab_size) (sym kept)
                  fed'.token;
          },
          omega (arith, more, ap (λ (o : TdtDecode). length o.steps) kept),
        )

    decode_step_ok :
        (m : Machine S)
        → m.t < frames
        → IsBounded m
        → IsFed config IsState m
        → (next : Machine S) × (decode_step gt neg_infinity prednet_step joint_step config m
            ≡ ok next)
          × IsBounded next
          × IsFed config IsState next
          × (length next.out.steps ≡ suc (length m.out.steps))
    unfolding decode_step
    decode_step_ok m h b fed =
        let (step, next, evaluated, short, token, good) =
          evaluate_ok gt neg_infinity prednet_step joint_step config frames IsState IsOutput
            predicts joins some_durations short_durations m h fed in
        let (m', advanced, b', fed', more) = advance_ok m step next h b fed token good short in
        (m', rw (evaluated, decode_step) advanced, b', fed', more)

    decode_loop_ok :
        (fuel : ℕ) (m : Machine S)
        → frames * config.max_tokens_per_step ≤ config.max_steps
        → IsBounded m
        → IsFed config IsState m
        → config.max_steps < fuel + length m.out.steps
        → (m' : Machine S) × (decode_loop gt neg_infinity prednet_step joint_step config fuel frames
              m
            ≡ some (ok m'))
          × (length m'.out.steps ≤ frames * config.max_tokens_per_step)
    unfolding decode_loop
    decode_loop_ok zero m enough b fed fuelled = absurd (omega (arith, b.all))
    decode_loop_ok (suc fuel) m enough b fed fuelled = elim (Bool-cases (ltb m.t frames)) [
      | inr f ↦ (m, rw (f, decode_loop) refl, b.all)
      | inl t ↦
          let less : m.t < frames = ground arith in
          let at_frame : (m.t + 1) * config.max_tokens_per_step
              ≤ frames * config.max_tokens_per_step =
            mul-le-mul_right config.max_tokens_per_step (omega arith) in
          let below : leb config.max_steps (length m.out.steps) ≡ false =
            let room : length m.out.steps < config.max_steps =
              omega (arith, b.few, b.budget, at_frame) in
            ground arith in
          let (next, stepped, b', fed', more) = decode_step_ok m less b fed in
          let (m', run, bound) = decode_loop_ok fuel next enough b' fed' (omega (arith, more)) in
          (m', rw (t, below, stepped, decode_loop) run, bound)
    ]

  -- The decoding ends without the error of too many steps, after as many iterations at most as there
  -- are frames times tokens a frame. The conditions: `max_steps` allows these; the projection of the
  -- encoder succeeded; the prediction network, fed with a token of the vocabulary and a state that it
  -- accepts, answers an output that the joint accepts and a state that it accepts again, and the first
  -- state is one; the joint answers such an output at each frame, with as many logits as it is wide; the
  -- blank is in the vocabulary; the durations are as many as there are classes, and with the number of
  -- frames they fit a `usize`; and some token is allowed at a frame.
  pub greedy_decode_returns :
      {S P : Type 0} (prednet_step : ℕ → S → Result (P × S)) (joint_step : ℕ → P → Result (List F))
      (config : TdtConfig) (frames : ℕ) (zeros : S) (IsState : S → Type 0) (IsOutput : P → Type 0)
      → ((token : ℕ) (s : S)
          → token < vocab_size
          → IsState s
          → (p : P) × (s' : S) × (prednet_step token s ≡ ok (p, s')) × IsOutput p × IsState s')
      → ((t : ℕ) (p : P)
          → t < frames
          → IsOutput p
          → (logits : List F) × (joint_step t p ≡ ok logits) × (length logits ≡ joint_width))
      → IsState zeros
      → config.blank < vocab_size
      → length config.durations ≡ num_durations
      → All (λ d. frames + d < usize_range) config.durations
      → 0 < config.max_tokens_per_step
      → frames * config.max_tokens_per_step ≤ config.max_steps
      → (out : TdtDecode) × (greedy_decode gt neg_infinity prednet_step joint_step config
            (ok tt)
            zeros
            frames
          ≡ some (ok out))
        × (length out.steps ≤ frames * config.max_tokens_per_step)
  unfolding greedy_decode
  greedy_decode_returns prednet_step joint_step config frames zeros IsState IsOutput predicts joins
        first blank five short some_tokens enough =
      let (m, run, bound) =
        decode_loop_ok prednet_step joint_step config frames IsState IsOutput predicts joins five
          short some_tokens (suc config.max_steps)
          (initial gt neg_infinity prednet_step joint_step config zeros) enough
          (record { few = omega arith; budget = some_tokens; all = omega arith })
          (record { state = first; token = blank }) (omega arith) in
      (m.out, ground (arith, run), bound)
