-- ===== src/Parakeet/Decoder/Outputs.antt =====
-- What the decoding answers: the tokens, the frames and the state behind them.
use ocelotl.Common.{
  ℕ, zero, suc, ◌+◌, ◌≤◌, ◌<◌, ◌≡◌, refl, sym, ap, ◌∙◌, subst, inl, inr, Bool, true, false, Option,
  none, some, List, [], ◌∷◌, ◌++◌, ltb, ◌==◌, arith, Bool-cases,
}
use ocelotl.Core.Errors.{Result, ok, err, panic, ◌>>=◌, >>=-eq-ok}
use ocelotl.Parakeet.Decoder.{
  TdtStep, TdtDecode, TdtConfig, Machine, last_or, evaluate, emit, advance, decode_step,
  decode_loop, initial, greedy_decode,
}
use ocelotl.Parakeet.Decoder.Steps.{
  step_tokens, step_frames, Leads, Linked, Linked-append, step_tokens-append, step_frames-append,
}

module _ {F : Type 0} (gt : F → F → Bool) (neg_infinity : F) {S P : Type 0}
    (prednet_step : ℕ → S → Result (P × S)) (joint_step : ℕ → P → Result (List F))
    (config : TdtConfig) where
  -- The state of the prediction network behind a text: what it makes of a first token and of all
  -- others but the last.
  abbrev pub committed : S → ℕ → List ℕ → Result S
  committed s prev [] = ok s
  committed s prev (x ∷ xs) = prednet_step prev s >>= λ (_, s'). committed s' x xs

  committed-append :
      (s s' s'' : S) (p : P) (prev x : ℕ) (xs : List ℕ)
      → committed s prev xs ≡ ok s'
      → prednet_step (last_or prev xs) s' ≡ ok (p, s'')
      → committed s prev (xs ++ (x ∷ [])) ≡ ok s''
  committed-append s s' s'' p prev x [] h e = ground (arith, e)
  committed-append s s' s'' p prev x (y ∷ xs) h e =
      let ((q, t), first, rest) = >>=-eq-ok (prednet_step prev s) _ h in
      rw (first, ◌>>=◌) (committed-append t s' s'' p y x xs rest e)

  -- The loop's variables, after some iterations.
  pub record IsDecoding (total : ℕ) (zeros : S) (m : Machine S) : Type 0 where
    pub tokens : m.out.tokens ≡ step_tokens config.blank m.out.steps
    pub frames : m.out.frames ≡ step_frames config.blank m.out.steps
    pub linked : Linked total 0 m.out.steps m.t
    pub state : committed zeros config.blank m.out.tokens ≡ ok m.state

  -- The recorded step.
  evaluated :
      (m : Machine S) (step : TdtStep) (next : S)
      → evaluate gt neg_infinity prednet_step joint_step config m ≡ ok (step, next)
      → (step.frame ≡ m.t)
        × (p : P) × (prednet_step (last_or config.blank m.out.tokens) m.state ≡ ok (p, next))
  unfolding evaluate
  evaluated m step next h =
      let ((p, s'), predicted, rest) =
        >>=-eq-ok (prednet_step (last_or config.blank m.out.tokens) m.state) _ h in
      let (logits, joined, last) = >>=-eq-ok (joint_step m.t p) _ rest in
      let same : s' ≡ next = ground arith in (ground arith, p, predicted ∙ ap (λ x. ok (p, x)) same)

  advanced :
      (e m' : Machine S) (step : TdtStep)
      → step.frame ≡ e.t
      → advance gt neg_infinity prednet_step joint_step config e step ≡ ok m'
      → (m'.out ≡ e.out) × (m'.state ≡ e.state) × Leads step m'.t
  unfolding advance
  advanced e m' step at_t h =
      (ground arith, ground arith, ((λ k. ground arith), (λ k. ground arith)))

  -- The recorded step, before time moves on.
  recorded :
      (total : ℕ) (zeros : S) (m : Machine S) (step : TdtStep) (next : S) (p : P)
      → prednet_step (last_or config.blank m.out.tokens) m.state ≡ ok (p, next)
      → step.frame ≡ m.t
      → IsDecoding total zeros m
      → (e : Machine S) × (emit gt neg_infinity prednet_step joint_step config m step next ≡ e)
        × (e.t ≡ m.t)
        × (e.out.steps ≡ m.out.steps ++ (step ∷ []))
        × (e.out.tokens ≡ step_tokens config.blank (m.out.steps ++ (step ∷ [])))
        × (e.out.frames ≡ step_frames config.blank (m.out.steps ++ (step ∷ [])))
        × (committed zeros config.blank e.out.tokens ≡ ok e.state)
  unfolding emit
  recorded total zeros m step next p predicted at_t d =
      let tokens = step_tokens-append config.blank m.out.steps step in
      let frames = step_frames-append config.blank m.out.steps step in
      elim (Bool-cases (step.token == config.blank)) [
        | inl blank ↦ (
          record m {
            out = record {
              tokens = m.out.tokens;
              frames = m.out.frames;
              steps = m.out.steps ++ (step ∷ []);
            };
          },
          rw (blank, emit) refl,
          refl,
          refl,
          d.tokens ∙ sym (rw blank at tokens),
          d.frames ∙ sym (rw blank at frames),
          d.state,
        )
        | inr other ↦ (
          record {
            state = next;
            out = record {
              tokens = m.out.tokens ++ (step.token ∷ []);
              frames = m.out.frames ++ (m.t ∷ []);
              steps = m.out.steps ++ (step ∷ []);
            };
            t = m.t;
            emitted = m.emitted + 1;
          },
          rw (other, emit) refl,
          refl,
          refl,
          ap (λ xs. xs ++ (step.token ∷ [])) d.tokens ∙ sym (rw other at tokens),
          ap (λ xs. xs ++ (m.t ∷ [])) d.frames
              ∙ ap (λ t. step_frames config.blank m.out.steps ++ (t ∷ [])) (sym at_t)
              ∙ sym (rw other at frames),
          committed-append zeros m.state next p config.blank step.token m.out.tokens d.state
              predicted,
        )
      ]

  decode_step-IsDecoding :
      (total : ℕ) (zeros : S) (m m' : Machine S)
      → m.t < total
      → decode_step gt neg_infinity prednet_step joint_step config m ≡ ok m'
      → IsDecoding total zeros m
      → IsDecoding total zeros m'
  unfolding decode_step
  decode_step-IsDecoding total zeros m m' inside h d =
      let ((step, next), evaluation, rest) =
        >>=-eq-ok (evaluate gt neg_infinity prednet_step joint_step config m) _ h in
      let (at_t, p, predicted) = evaluated m step next evaluation in
      let (e, emitted, e_t, steps, tokens, frames, state) =
        recorded total zeros m step next p predicted at_t d in
      let (out, same_state, leads) = advanced e m' step (at_t ∙ sym e_t) (rw emitted at rest) in
      let all_steps : m'.out.steps ≡ m.out.steps ++ (step ∷ []) =
        ap (λ (o : TdtDecode). o.steps) out ∙ steps in
      let all_tokens : m'.out.tokens ≡ e.out.tokens = ap (λ (o : TdtDecode). o.tokens) out in
      record {
        tokens = all_tokens ∙ tokens ∙ ap (step_tokens config.blank) (sym all_steps);
        frames =
            ap (λ (o : TdtDecode). o.frames) out
            ∙ frames
            ∙ ap (step_frames config.blank) (sym all_steps);
        linked =
            subst (λ ss. Linked total 0 ss m'.t) (sym all_steps)
              (Linked-append total 0 m.t m'.t m.out.steps step d.linked at_t inside leads);
        state = ap (committed zeros config.blank) all_tokens ∙ state ∙ ap ok (sym same_state);
      }

  -- An iteration that the guard admits.
  looped :
      (fuel total : ℕ) (m m' : Machine S)
      → ltb m.t total ≡ true
      → decode_loop gt neg_infinity prednet_step joint_step config (suc fuel) total m ≡ some (ok m')
      → (n : Machine S) × (decode_step gt neg_infinity prednet_step joint_step config m ≡ ok n)
        × (decode_loop gt neg_infinity prednet_step joint_step config fuel total n ≡ some (ok m'))
  unfolding decode_loop
  looped fuel total m m' t h =
      split (decode_step gt neg_infinity prednet_step joint_step config m) refl
    where
      split :
          (x : Result (Machine S))
          → decode_step gt neg_infinity prednet_step joint_step config m ≡ x
          → (n : Machine S) × (decode_step gt neg_infinity prednet_step joint_step config m ≡ ok n)
            × (decode_loop gt neg_infinity prednet_step joint_step config fuel total n
                ≡ some (ok m'))
      split (ok n) e = (n, e, ground (arith, e))
      split (err x) e = absurd (ground (arith, e))
      split panic e = absurd (ground (arith, e))

  decode_loop-IsDecoding :
      (fuel total : ℕ) (zeros : S) (m m' : Machine S)
      → decode_loop gt neg_infinity prednet_step joint_step config fuel total m ≡ some (ok m')
      → IsDecoding total zeros m
      → IsDecoding total zeros m' × (total ≤ m'.t)
  unfolding decode_loop
  decode_loop-IsDecoding zero total zeros m m' h d = absurd (cc)
  decode_loop-IsDecoding (suc fuel) total zeros m m' h d = elim (Bool-cases (ltb m.t total)) [
    | inr f ↦
        let same : m ≡ m' = ground arith in
        (
          subst (IsDecoding total zeros) same d,
          omega (arith, ap (λ (x : Machine S). x.t) same, ltb_false m.t total f),
        )
    | inl t ↦
        let (n, stepped, run) = looped fuel total m m' t h in
        decode_loop-IsDecoding fuel total zeros n m' run
          (decode_step-IsDecoding total zeros m n (ground arith) stepped d)
  ]
    where
      ltb_false : (a b : ℕ) → ltb a b ≡ false → b ≤ a
      ltb_false a b e = ground arith

  -- The loop behind a decoding that succeeds.
  ended :
      (project : Result (Unit {0})) (zeros : S) (frames : ℕ) (out : TdtDecode)
      → greedy_decode gt neg_infinity prednet_step joint_step config project zeros frames
        ≡ some (ok out)
      → (m : Machine S) × (decode_loop gt neg_infinity prednet_step joint_step config
            (suc config.max_steps)
            frames
            (initial gt neg_infinity prednet_step joint_step config zeros)
          ≡ some (ok m))
        × (m.out ≡ out)
  unfolding greedy_decode
  ended project zeros frames out h =
      split
        (decode_loop gt neg_infinity prednet_step joint_step config (suc config.max_steps) frames
          (initial gt neg_infinity prednet_step joint_step config zeros))
        refl
    where
      split :
          (x : Option (Result (Machine S)))
          → decode_loop gt neg_infinity prednet_step joint_step config
              (suc config.max_steps)
              frames
              (initial gt neg_infinity prednet_step joint_step config zeros)
            ≡ x
          → (m : Machine S) × (decode_loop gt neg_infinity prednet_step joint_step config
                (suc config.max_steps)
                frames
                (initial gt neg_infinity prednet_step joint_step config zeros)
              ≡ some (ok m))
            × (m.out ≡ out)
      split none e = absurd (ground (arith, e))
      split (some (ok m)) e = (m, e, ground (arith, e))
      split (some (err x)) e = absurd (ground (arith, e))
      split (some panic) e = absurd (ground (arith, e))

  initial-IsDecoding :
      (total : ℕ) (zeros : S)
      → IsDecoding total zeros (initial gt neg_infinity prednet_step joint_step config zeros)
  initial-IsDecoding total zeros = record {
    tokens = refl;
    frames = refl;
    linked = refl;
    state = refl;
  }

  -- Only a token that is not blank commits the state of the prediction network: where the loop ends
  -- without an error, whatever the networks, the limits and the number of frames, the state is the one
  -- that the network has after the blank that starts a text and all emitted tokens but the last.
  pub decode_loop_commits :
      (fuel total : ℕ) (zeros : S) (m : Machine S)
      → decode_loop gt neg_infinity prednet_step joint_step config fuel total
          (initial gt neg_infinity prednet_step joint_step config zeros)
        ≡ some (ok m)
      → committed zeros config.blank m.out.tokens ≡ ok m.state
  decode_loop_commits fuel total zeros m h =
      let (d, _) = decode_loop-IsDecoding fuel total zeros _ m h (initial-IsDecoding total zeros) in
      d.state

  -- Of a decoding that ends without an error, whatever the networks and the limits: the tokens are
  -- those of the steps without the blanks, each with the frame of its step beside it. The first step
  -- is at frame 0, each at a frame of the recording, and the next one as many frames ahead as the
  -- duration says, or, where that is 0, at the same frame or one ahead. The last step leads behind the
  -- recording.
  pub greedy_decode_outputs :
      (project : Result (Unit {0})) (zeros : S) (frames : ℕ) (out : TdtDecode)
      → greedy_decode gt neg_infinity prednet_step joint_step config project zeros frames
        ≡ some (ok out)
      → (out.tokens ≡ step_tokens config.blank out.steps)
        × (out.frames ≡ step_frames config.blank out.steps)
        × (t : ℕ) × (frames ≤ t)
        × Linked frames 0 out.steps t
  greedy_decode_outputs project zeros frames out h =
      let (m, run, same) = ended project zeros frames out h in
      let (d, behind) =
        decode_loop-IsDecoding (suc config.max_steps) frames zeros _ m run
          (initial-IsDecoding frames zeros) in
      (
        subst (λ (o : TdtDecode). o.tokens ≡ step_tokens config.blank o.steps) same d.tokens,
        subst (λ (o : TdtDecode). o.frames ≡ step_frames config.blank o.steps) same d.frames,
        m.t,
        behind,
        subst (λ (o : TdtDecode). Linked frames 0 o.steps m.t) same d.linked,
      )
