-- ===== src/Scheduler/Invariant.antt =====
-- What holds of the queues between the calls of the scheduler's methods.
use ocelotl.Common.{
  ℕ, suc, ◌+◌, ◌≤◌, ◌<◌, ◌≡◌, refl, ◌⊎◌, inl, inr, Bool, some, List, [], ◌∷◌, ◌++◌, ◌==◌, arith,
  length, All, All-append, Bool-cases, Option-cases, ◌&&◌, length-append, is_empty,
}
use ocelotl.Scheduler.{
  ScheduledGenerationRequest, RequestSlot, ContinuousBatchScheduler, SchedulerConfig, new, enqueue,
  submit, cleanup, take_slot, find_slot, set_state, cancel_active, cancel,
}
use ocelotl.Scheduler.State.{queued, decode, canceled, transition}

-- A slot of the pending queue: no token yet, and some wanted.
abbrev pub IsWaiting : RequestSlot → Type 0
IsWaiting slot = (slot.state ≡ queued) × (slot.generated_tokens ≡ []) × (0 < slot.max_new_tokens)

-- A slot of the active queue: in decoding or canceled, and short of its tokens.
abbrev pub IsRunning : RequestSlot → Type 0
IsRunning slot =
    ((slot.state ≡ decode) ⊎ (slot.state ≡ canceled))
    × (length slot.generated_tokens < slot.max_new_tokens)

pub record Inv (s : ContinuousBatchScheduler) : Type 0 where
  pub waiting : All IsWaiting s.pending
  pub running : All IsRunning s.active
  pub bounded : length s.pending + length s.active ≤ s.config.max_queue_len

pub new-Inv : (c : SchedulerConfig) → Inv (new c)
unfolding new
new-Inv c = omega arith

abbrev pub waiting_slot : ScheduledGenerationRequest → RequestSlot
waiting_slot r = record {
  request_id = r.request_id;
  prompt_tokens = r.prompt_tokens;
  generated_tokens = [];
  max_new_tokens = r.max_new_tokens;
  state = queued;
}

pub enqueue_fields :
    (s : ContinuousBatchScheduler) (r : ScheduledGenerationRequest)
    → ((enqueue s r).pending ≡ s.pending ++ waiting_slot r ∷ [])
      × ((enqueue s r).active ≡ s.active)
      × ((enqueue s r).completed ≡ s.completed)
      × ((enqueue s r).config ≡ s.config)
unfolding enqueue
enqueue_fields s r =
    elim (Bool-cases (is_empty s.pending && is_empty s.active && is_empty s.completed)) [
      | inl e ↦ rw e (refl, refl, refl, refl)
      | inr e ↦ rw e (refl, refl, refl, refl)
    ]

enqueue-Inv :
    (s : ContinuousBatchScheduler) (r : ScheduledGenerationRequest)
    → 0 < r.max_new_tokens
    → length s.pending + length s.active < s.config.max_queue_len
    → Inv s
    → Inv (enqueue s r)
enqueue-Inv s r h k v =
    let (p, a, _, c) = enqueue_fields s r in
    record {
      waiting =
          rw p
            (All-append IsWaiting s.pending (waiting_slot r ∷ []) v.waiting ((refl, refl, h), tt));
      running = rw a v.running;
      bounded = rw (p, a, c) (omega (arith, length-append s.pending (waiting_slot r ∷ [])));
    }

-- From well-formed queues, a submission, accepted or refused, leaves queues that are well formed and
-- within the configured bound.
pub submit-Inv :
    (can_reserve : ℕ → Bool) (s : ContinuousBatchScheduler) (r : ScheduledGenerationRequest)
    → Inv s
    → Inv (submit can_reserve s r).0
unfolding submit
submit-Inv can_reserve s r v = ground (arith, enqueue-Inv s r)

take_slot-All :
    (id : ℕ) (slots : List RequestSlot) (x : RequestSlot) (rest : List RequestSlot)
    → take_slot id slots ≡ some (x, rest)
    → All IsWaiting slots
    → IsWaiting x × All IsWaiting rest × (length slots ≡ suc (length rest)) × (x.request_id ≡ id)
unfolding take_slot
take_slot-All id [] x rest h v = absurd (ground arith)
take_slot-All id (slot ∷ slots) x rest h v = elim (Bool-cases (slot.request_id == id)) [
  | inl e ↦ ground arith
  | inr e ↦ elim (Option-cases (take_slot id slots)) [
    | inl f ↦ absurd (ground arith)
    | inr ((y, others), f) ↦
        let (a, b, c, d) = take_slot-All id slots y others f v.1 in ground arith
  ]
]

set_state-All :
    (id : ℕ) (slots : List RequestSlot)
    → All IsRunning slots
    → All IsRunning (set_state id canceled slots)
      × (length (set_state id canceled slots) ≡ length slots)
unfolding set_state
set_state-All id [] v = (tt, refl)
set_state-All id (slot ∷ slots) v = ground (arith, set_state-All id slots v.1)

find_slot-All :
    (id : ℕ) (slots : List RequestSlot) (x : RequestSlot)
    → find_slot id slots ≡ some x
    → All IsRunning slots
    → IsRunning x
unfolding find_slot
find_slot-All id [] x h v = absurd (ground arith)
find_slot-All id (slot ∷ slots) x h v = ground (arith, find_slot-All id slots x)

cancel_active-Inv : (s : ContinuousBatchScheduler) (id : ℕ) → Inv s → Inv (cancel_active s id).0
unfolding cancel_active transition
cancel_active-Inv s id v =
    ground (arith, set_state-All id s.active v.running, find_slot-All id s.active)

-- From well-formed queues, a cancellation, accepted or refused, leaves queues that are well formed and
-- within the configured bound.
pub cancel-Inv : (s : ContinuousBatchScheduler) (id : ℕ) → Inv s → Inv (cancel s id).0
unfolding cancel cleanup transition
cancel-Inv s id v = elim (Option-cases (take_slot id s.pending)) [
  | inl e ↦ rw (e, cancel) (cancel_active-Inv s id v)
  | inr ((x, rest), e) ↦
      let (w, others, n, _) = take_slot-All id s.pending x rest e v.waiting in
      rw (e, cancel) (ground arith)
]
