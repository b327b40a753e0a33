-- ===== src/Parakeet/Decoder/Answers.antt =====
-- One step of the decoding, where the networks answer.
use ocelotl.Common.{
  ℕ, zero, suc, ◌+◌, ◌≤◌, ◌<◌, ◌≡◌, refl, inl, inr, Bool, some, List, [], ◌∷◌, arith, Bool-cases,
  length, take, drop, get_elem?, length-drop, length-take, All,
}
use ocelotl.Core.Errors.{Result, ok}
use ocelotl.Core.Words.{usize_range}
use ocelotl.Parakeet.Decoder.{
  TdtStep, TdtConfig, Machine, last_or, vocab_size, num_durations, joint_width, argmax_scan, argmax,
  evaluate,
}

-- An entry of a list, and a property of all entries.
entry_at :
    (P : ℕ → Type 0) (xs : List ℕ) (i : ℕ)
    → i < length xs
    → All P xs
    → (d : ℕ) × (get_elem? xs i ≡ some d) × P d
entry_at P (x ∷ xs) zero h p = (x, refl, p.0)
entry_at P (x ∷ xs) (suc i) h p = entry_at P xs i (omega arith) (p.1)
entry_at P [] i h p = absurd (omega arith)

-- What the prediction network is fed with next.
pub record IsFed {S : Type 0} (config : TdtConfig) (IsState : S → Type 0) (m : Machine S)
    : Type 0 where
  pub state : IsState m.state
  pub token : last_or config.blank m.out.tokens < vocab_size

module _ {F : Type 0} (gt : F → F → Bool) (neg_infinity : F) where
  argmax_scan_bound :
      (n i best : ℕ) (v : F) (xs : List F)
      → best < n
      → i + length xs ≤ n
      → argmax_scan gt neg_infinity i best v xs < n
  unfolding argmax_scan
  argmax_scan_bound n i best v [] h k = h
  argmax_scan_bound n i best v (x ∷ xs) h k = elim (Bool-cases (gt x v)) [
    | inl t ↦ rw (t, argmax_scan) (argmax_scan_bound n (i + 1) i x xs (omega arith) (omega arith))
    | inr f ↦ rw (f, argmax_scan) (argmax_scan_bound n (i + 1) best v xs h (omega arith))
  ]

  argmax_bound : (xs : List F) (n : ℕ) → length xs ≡ n → 0 < n → argmax gt neg_infinity xs < n
  unfolding argmax
  argmax_bound xs n e h = argmax_scan_bound n 0 0 neg_infinity xs h (omega arith)

  module _ {S P : Type 0} (prednet_step : ℕ → S → Result (P × S))
      (joint_step : ℕ → P → Result (List F)) (config : TdtConfig) (frames : ℕ)
      (IsState : S → Type 0) (IsOutput : P → Type 0)
      (predicts : (token : ℕ) (s : S)
        → token < vocab_size
        → IsState s
        → (p : P) × (s' : S) × (prednet_step token s ≡ ok (p, s')) × IsOutput p × IsState s')
      (joins : (t : ℕ) (p : P)
        → t < frames
        → IsOutput p
        → (logits : List F) × (joint_step t p ≡ ok logits) × (length logits ≡ joint_width))
      (some_durations : length config.durations ≡ num_durations)
      (short_durations : All (λ d. frames + d < usize_range) config.durations) where
    evaluate_at :
        (m : Machine S) (p : P) (s' : S) (logits : List F) (d : ℕ)
        → prednet_step (last_or config.blank m.out.tokens) m.state ≡ ok (p, s')
        → joint_step m.t p ≡ ok logits
        → get_elem? config.durations (argmax gt neg_infinity (drop vocab_size logits)) ≡ some d
        → evaluate gt neg_infinity prednet_step joint_step config m
          ≡ ok (
            record {
              frame = m.t;
              prev_token = last_or config.blank m.out.tokens;
              token = argmax gt neg_infinity (take vocab_size logits);
              duration_index = argmax gt neg_infinity (drop vocab_size logits);
              duration = d;
            },
            s',
          )
    unfolding evaluate
    evaluate_at m p s' logits d predicted joined found = ground (arith, predicted, joined, found)

    -- A step that the networks allow.
    pub evaluate_ok :
        (m : Machine S)
        → m.t < frames
        → IsFed config IsState m
        → (step : TdtStep) × (next : S) × (evaluate gt neg_infinity prednet_step joint_step config m
            ≡ ok (step, next))
          × (frames + step.duration < usize_range)
          × (step.token < vocab_size)
          × IsState next
    evaluate_ok m h fed =
        let (p, s', predicted, output, good) =
          predicts (last_or config.blank m.out.tokens) m.state fed.token fed.state in
        let (logits, joined, width) = joins m.t p h output in
        let index = argmax gt neg_infinity (drop vocab_size logits) in
        let in_table : index < length config.durations = omega (
          arith,
          argmax_bound (drop vocab_size logits) 5
              (omega (arith, length-drop vocab_size logits, width)) (omega arith),
          some_durations,
        ) in
        let (d, found, short) = entry_at _ config.durations index in_table short_durations in
        (
          record {
            frame = m.t;
            prev_token = last_or config.blank m.out.tokens;
            token = argmax gt neg_infinity (take vocab_size logits);
            duration_index = index;
            duration = d;
          },
          s',
          evaluate_at m p s' logits d predicted joined found,
          short,
          argmax_bound (take vocab_size logits) vocab_size
              (omega (arith, length-take vocab_size logits, width)) (omega arith),
          good,
        )
