-- ===== src/Whisper/Sampling/Choice.antt =====
-- What `greedy_sample` and `masked_greedy_sample` return.
use ocelotl.Common.{
  ℕ, suc, ◌+◌, ◌%◌, ◌≤◌, ◌<◌, ◌≡◌, refl, sym, ◌∙◌, ap, ◌⊎◌, inl, inr, Bool, true, ◌&&◌, Option,
  none, some, List, [], ◌∷◌, if◌then◌else◌, arith, length, get_elem?, Bool-cases,
}
use ocelotl.Core.Errors.{ok, err, ◌>>=◌, runtime_err}
use ocelotl.Whisper.Tokens.{WhisperDecodeMask, mask_token, is_allowed}
use ocelotl.Whisper.Sampling.{
  u32_range, scan, greedy_sample, improves, masked_scan, picked, masked_greedy_sample,
}
use ocelotl.Whisper.Sampling.Argmax.{
  IsOrder, IsBest, NoneFree, Best, none_step, first_step, keep_step, take_step, irreflexive,
}

-- The tokens that a mask allows.
abbrev pub free : WhisperDecodeMask → ℕ → Bool
free mask j = is_allowed (mask_token mask j)

-- `rest` is `xs` from `n` on.
abbrev Suffix : {F : Type 0} → List F → ℕ → List F → Type 0
Suffix xs n rest = (k : ℕ) → get_elem? xs (n + k) ≡ get_elem? rest k

suffix_next :
    {F : Type 0} (xs : List F) (n : ℕ) (x : F) (rest : List F)
    → Suffix xs n (x ∷ rest)
    → Suffix xs (n + 1) rest
suffix_next xs n x rest s k = let e : n + 1 + k ≡ n + suc k = omega arith in rw e (s (suc k))

suffix_here :
    {F : Type 0} (xs : List F) (n : ℕ) (x : F) (rest : List F)
    → Suffix xs n (x ∷ rest)
    → get_elem? xs n ≡ some x
suffix_here xs n x rest s = let e : n ≡ n + 0 = omega arith in rw e (s 0)

suffix_all : {F : Type 0} (xs : List F) → Suffix xs 0 xs
suffix_all xs k = let e : 0 + k ≡ k = omega arith in rw e refl

suffix_tail : {F : Type 0} (x : F) (xs : List F) → Suffix (x ∷ xs) 1 xs
suffix_tail x xs k = let e : 1 + k ≡ suc k = omega arith in rw e refl

module _ {F : Type 0} (gt : F → F → Bool) (o : IsOrder gt) where
  scan_lem :
      (xs : List F) (n i : ℕ) (v : F) (rest : List F)
      → Suffix xs n rest
      → IsBest gt (λ j. true) xs n i v
      → (w : F) × IsBest gt (λ j. true) xs (n + length rest) (scan gt n i v rest) w
  unfolding scan
  scan_lem xs n i v [] s b = let e : n + 0 ≡ n = omega arith in (v, rw e b)
  scan_lem xs n i v (x ∷ rest) s b =
      let e : n + suc (length rest) ≡ n + 1 + length rest = omega arith in
      let here = suffix_here xs n x rest s in
      let next = suffix_next xs n x rest s in
      elim (Bool-cases (gt x v)) [
        | inl h ↦
            rw (h, e)
              (scan_lem xs (n + 1) n x rest next
                (take_step gt (λ j. true) xs o n i v x here refl h b))
        | inr h ↦
            rw (h, e)
              (scan_lem xs (n + 1) i v rest next (keep_step gt (λ j. true) xs n i v x here h b))
      ]

  -- Where `>` orders the logits and their number is a `u32`, sampling from one logit at least
  -- returns the index of the largest, and of the first one among equals.
  pub greedy_sample_argmax :
      (first : F) (logits : List F)
      → suc (length logits) ≤ u32_range
      → (t : ℕ) × (w : F) × (greedy_sample gt (first ∷ logits) ≡ ok t)
        × IsBest gt (λ j. true) (first ∷ logits) (suc (length logits)) t w
  unfolding greedy_sample
  greedy_sample_argmax first logits h =
      let start =
        first_step gt (λ j. true) (first ∷ logits) 0 first refl refl (λ j w l. absurd (omega arith))
          (irreflexive gt (λ j. true) (first ∷ logits) o first) in
      let (w, b) = scan_lem (first ∷ logits) 1 0 first logits (suffix_tail first logits) start in
      let e : 1 + length logits ≡ suc (length logits) = omega arith in
      let c : IsBest gt (λ j. true) (first ∷ logits) (suc (length logits))
          (scan gt 1 0 first logits) w =
        rw (sym e) b in
      let small : scan gt 1 0 first logits % u32_range ≡ scan gt 1 0 first logits =
        omega (arith, c.inside) in
      (scan gt 1 0 first logits, w, ap ok small, c)

  module _ (mask : WhisperDecodeMask) where
    masked_step :
        (xs : List F) (n : ℕ) (best : Option (ℕ × F)) (x : F)
        → get_elem? xs n ≡ some x
        → Best gt (free mask) xs n best
        → Best gt
            (free mask)
            xs
            (n + 1)
            (if free mask n && improves gt best x then some (n, x) else best)
    masked_step xs n none x here b = elim (Bool-cases (free mask n)) [
      | inl h ↦ rw h (first_step gt (free mask) xs n x here h b (irreflexive gt (free mask) xs o x))
      | inr h ↦ rw h (none_step gt (free mask) xs n x here h b)
    ]
    masked_step xs n (some (i, v)) x here b = elim (Bool-cases (free mask n && gt x v)) [
      | inl h ↦ rw h (take_step gt (free mask) xs o n i v x here (ground arith) (ground arith) b)
      | inr h ↦ rw h (keep_step gt (free mask) xs n i v x here h b)
    ]

    masked_scan_step :
        (n : ℕ) (best : Option (ℕ × F)) (x : F) (rest : List F)
        → n < u32_range
        → masked_scan gt mask n best (x ∷ rest)
          ≡ masked_scan gt mask
              (n + 1)
              (if free mask n && improves gt best x then some (n, x) else best)
              rest
    unfolding masked_scan
    masked_scan_step n best x rest h = ground arith

    masked_scan_lem :
        (xs : List F) (n : ℕ) (best : Option (ℕ × F)) (rest : List F)
        → Suffix xs n rest
        → n + length rest ≤ u32_range
        → Best gt (free mask) xs n best
        → (found : Option (ℕ × F)) × (masked_scan gt mask n best rest ≡ ok found)
          × Best gt (free mask) xs (n + length rest) found
    unfolding masked_scan
    masked_scan_lem xs n best [] s h b = let e : n + 0 ≡ n = omega arith in (best, refl, rw e b)
    masked_scan_lem xs n best (x ∷ rest) s h b =
        let e : n + suc (length rest) ≡ n + 1 + length rest = omega arith in
        let here = suffix_here xs n x rest s in
        let (found, ran, c) =
          masked_scan_lem xs (n + 1) _ rest (suffix_next xs n x rest s) (omega arith)
            (masked_step xs n best x here b) in
        (found, masked_scan_step n best x rest (omega arith) ∙ ran, rw e c)

    -- Where `>` orders the logits and their number is a `u32`, sampling under a mask returns the
    -- index of the largest of the logits that the mask allows, and of the first one among equals;
    -- or the mask allows none, and sampling fails with the error that says so.
    pub masked_greedy_sample_argmax :
        (xs : List F)
        → length xs ≤ u32_range
        → ((t : ℕ) × (w : F) × (masked_greedy_sample gt xs mask ≡ ok t)
            × IsBest gt (free mask) xs (length xs) t w)
          ⊎ ((masked_greedy_sample gt xs mask
                ≡ err (runtime_err "Whisper decode mask suppressed every logit"))
              × NoneFree gt (free mask) xs (length xs))
    unfolding masked_greedy_sample
    masked_greedy_sample_argmax xs h =
        let (found, ran, b) =
          masked_scan_lem xs 0 none xs (suffix_all xs) (omega arith)
            (λ j w l. absurd (omega arith)) in
        let e : length xs ≡ 0 + length xs = omega arith in choose found ran (rw e b)
      where
        choose :
            (found : Option (ℕ × F))
            → masked_scan gt mask 0 none xs ≡ ok found
            → Best gt (free mask) xs (length xs) found
            → ((t : ℕ) × (w : F) × ((masked_scan gt mask 0 none xs >>= picked gt) ≡ ok t)
                × IsBest gt (free mask) xs (length xs) t w)
              ⊎ (((masked_scan gt mask 0 none xs >>= picked gt)
                    ≡ err (runtime_err "Whisper decode mask suppressed every logit"))
                  × NoneFree gt (free mask) xs (length xs))
        choose none ran b = inr (rw ran refl, b)
        choose (some (t, w)) ran b =
            inl
              (t, w, (let k : t < u32_range = omega (arith, b.inside) in rw ran (ground arith)), b)
