-- ===== src/Scheduler/Progress.antt =====
-- crates/runtime/src/scheduler.rs: the rounds of the decode loop and the work that is left.
use ocelotl.Common.{
  ℕ, zero, suc, ◌+◌, ◌<◌, ◌≡◌, refl, ap, ◌∙◌, ◌⊎◌, inl, inr, none, some, List, [], ◌∷◌, ◌++◌, arith,
  All, All-append, length-append, map,
}
use mathlib.Core.List.{append-nil, append_assoc}
use ocelotl.Core.Errors.{Result, ok, err, panic, Result-cases}
use ocelotl.Scheduler.{
  RequestSlot, ContinuousBatchScheduler, GreedyDecodeModel, ScheduledGenerationResponse, push_event,
  admit_all, admit_pending,
}
use ocelotl.Scheduler.Run.{emitted, serve, run_loop, rounds, collect, after_loop, run_to_completion}
use ocelotl.Scheduler.State.{prefill, decode, transition}
use ocelotl.Scheduler.Invariant.{IsWaiting, IsRunning, Inv}

pub rounds-append : (xs ys : List RequestSlot) → rounds (xs ++ ys) ≡ rounds xs + rounds ys
rounds-append [] ys = omega arith
rounds-append (x ∷ xs) ys = omega (arith, rounds-append xs ys)

-- A slot as it enters the decode loop.
abbrev pub admitted : RequestSlot → RequestSlot
admitted slot = record slot { state = decode }

-- What admission changes of the queues.
pub record Admits (slots : List RequestSlot) (s t : ContinuousBatchScheduler) : Type 0 where
  pub none_pending : t.pending ≡ []
  pub active_queue : t.active ≡ s.active ++ map admitted slots
  pub same_completed : t.completed ≡ s.completed
  pub same_config : t.config ≡ s.config
  pub same_log : t.cleanup_log ≡ s.cleanup_log

-- The scheduler after one round of admission.
abbrev admit_one :
    ContinuousBatchScheduler → RequestSlot → List RequestSlot → ContinuousBatchScheduler
admit_one s slot rest = record s {
  pending = rest;
  active = s.active ++ admitted slot ∷ [];
  events =
      (s.events ++ record { request_id = slot.request_id; state = prefill; token = none } ∷ [])
      ++ record { request_id = slot.request_id; state = decode; token = none } ∷ [];
}

pub admit_all-Admits :
    (slots : List RequestSlot) (s : ContinuousBatchScheduler)
    → All IsWaiting slots
    → (t : ContinuousBatchScheduler) × (admit_all slots s ≡ (t, ok tt)) × Admits slots s t
unfolding admit_all transition push_event
admit_all-Admits [] s v = (
  record s { pending = [] },
  refl,
  record {
    none_pending = refl;
    active_queue = rw append-nil refl;
    same_completed = refl;
    same_config = refl;
    same_log = refl;
  },
)
admit_all-Admits (slot ∷ rest) s v =
    let filling : transition slot.state prefill ≡ ok prefill = ground arith in
    let (t, done, a) = admit_all-Admits rest (admit_one s slot rest) v.1 in
    (
      t,
      rw filling done,
      record {
        none_pending = a.none_pending;
        active_queue =
            a.active_queue ∙ append_assoc s.active (admitted slot ∷ []) (map admitted rest);
        same_completed = a.same_completed;
        same_config = a.same_config;
        same_log = a.same_log;
      },
    )

-- What one round of the loop does to the queues, the model failing or not.
pub serve_progress :
    (model : GreedyDecodeModel) (s : ContinuousBatchScheduler) (slot : RequestSlot)
    → IsRunning slot
    → All IsRunning s.active
    → All IsRunning (serve model s slot).0.active
      × (rounds (serve model s slot).0.active < rounds (slot ∷ s.active))
unfolding serve transition
serve_progress model s slot v w = elim (Result-cases (model.decode_one slot.prompt_tokens)) [
  | inl (token, e) ↦ ground (
    arith,
    e,
    length-append slot.generated_tokens (token ∷ []),
    rounds-append s.active (emitted slot decode token ∷ []),
    All-append IsRunning s.active (emitted slot decode token ∷ []),
  )
  | inr (inl (x, e)) ↦ ground (arith, e)
  | inr (inr e) ↦ ground (arith, e)
]

pub List-cases :
    {A : Type 0} (xs : List A) → (xs ≡ []) ⊎ ((x : A) × (rest : List A) × (xs ≡ x ∷ rest))
List-cases [] = inl refl
List-cases (x ∷ xs) = inr (x, xs, refl)

pub run_loop_done :
    (fuel : ℕ) (model : GreedyDecodeModel) (s : ContinuousBatchScheduler)
    → s.active ≡ []
    → run_loop (suc fuel) model s ≡ some (s, ok tt)
unfolding run_loop
run_loop_done fuel model s e = ground arith

pub run_loop_next :
    (fuel : ℕ) (model : GreedyDecodeModel) (s t : ContinuousBatchScheduler) (slot : RequestSlot)
    (rest : List RequestSlot)
    → s.active ≡ slot ∷ rest
    → serve model (record s { active = rest }) slot ≡ (t, ok tt)
    → run_loop (suc fuel) model s ≡ run_loop fuel model t
unfolding run_loop
run_loop_next fuel model s t slot rest e h = ground arith

-- A round that fails ends the loop.
abbrev Failed : ContinuousBatchScheduler × Result (Unit {0}) → Type 0
Failed (t, ok _) = ⊥
Failed (t, err x) = Unit
Failed (t, panic) = Unit

run_loop_fails :
    (fuel : ℕ) (model : GreedyDecodeModel) (s : ContinuousBatchScheduler) (slot : RequestSlot)
    (rest : List RequestSlot) (r : ContinuousBatchScheduler × Result (Unit {0}))
    → s.active ≡ slot ∷ rest
    → serve model (record s { active = rest }) slot ≡ r
    → Failed r
    → run_loop (suc fuel) model s ≡ some r
unfolding run_loop
run_loop_fails fuel model s slot rest (t, ok _) e h f = absurd f
run_loop_fails fuel model s slot rest (t, err x) e h f = ground arith
run_loop_fails fuel model s slot rest (t, panic) e h f = ground arith

pub run_unfolds :
    (model : GreedyDecodeModel) (s t : ContinuousBatchScheduler)
    (r : ContinuousBatchScheduler × Result (Unit {0}))
    → admit_all s.pending s ≡ (t, ok tt)
    → run_loop (rounds t.active + 1) model t ≡ some r
    → run_to_completion model s ≡ after_loop (some r)
unfolding run_to_completion admit_pending
run_unfolds model s t r h k = ground arith

pub run_loop_returns :
    (fuel : ℕ) (model : GreedyDecodeModel) (s : ContinuousBatchScheduler)
    → All IsRunning s.active
    → rounds s.active < fuel
    → (result : ContinuousBatchScheduler × Result (Unit {0})) × (run_loop fuel model s
        ≡ some result)
run_loop_returns zero model s v h = absurd (omega arith)
run_loop_returns (suc fuel) model s v h = elim (List-cases s.active) [
  | inl e ↦ ((s, ok tt), run_loop_done fuel model s e)
  | inr (slot, rest, e) ↦
      let w : All IsRunning (slot ∷ rest) = rw e at v in
      let popped = record s { active = rest } in
      let next = serve model popped slot in
      let (kept, less) = serve_progress model popped slot w.0 w.1 in
      let few : rounds (slot ∷ rest) < suc fuel = rw e at h in
      elim (Result-cases next.1) [
        | inl (_, done) ↦
            let (r, ran) = run_loop_returns fuel model next.0 kept (omega arith) in
            (r, run_loop_next fuel model s next.0 slot rest e (ap (λ x. (next.0, x)) done) ∙ ran)
        | inr (inl (x, fails)) ↦ (
          (next.0, err x),
          run_loop_fails fuel model s slot rest _ e (ap (λ x. (next.0, x)) fails) tt,
        )
        | inr (inr fails) ↦ (
          (next.0, panic),
          run_loop_fails fuel model s slot rest _ e (ap (λ x. (next.0, x)) fails) tt,
        )
      ]
]

-- A waiting slot is a running one when it is admitted.
pub admitted-All :
    (slots : List RequestSlot) → All IsWaiting slots → All IsRunning (map admitted slots)
admitted-All [] v = tt
admitted-All (slot ∷ slots) v = (ground (arith, v.0), admitted-All slots v.1)

after_loop_returns :
    (r : ContinuousBatchScheduler × Result (Unit {0}))
    → (t : ContinuousBatchScheduler) × (x : Result (List ScheduledGenerationResponse)) × (after_loop
          (some r)
        ≡ some (t, x))
unfolding after_loop
after_loop_returns (s, ok _) = ((collect s).0, (collect s).1, refl)
after_loop_returns (s, err e) = (s, err e, refl)
after_loop_returns (s, panic) = (s, panic, refl)

-- From well-formed queues a run comes to an end, whatever the model answers: the fuel that it gives
-- the loop never runs out.
pub run_returns :
    (model : GreedyDecodeModel) (s : ContinuousBatchScheduler)
    → Inv s
    → (t : ContinuousBatchScheduler) × (r : Result (List ScheduledGenerationResponse))
      × (run_to_completion model s ≡ some (t, r))
run_returns model s v =
    let (t, done, a) = admit_all-Admits s.pending s v.waiting in
    let all : All IsRunning t.active = rw a.active_queue (
      All-append IsRunning s.active (map admitted s.pending) v.running
        (admitted-All s.pending v.waiting)) in
    let (r, ran) = run_loop_returns (rounds t.active + 1) model t all (omega arith) in
    let (u, x, same) = after_loop_returns r in (u, x, run_unfolds model s t r done ran ∙ same)
