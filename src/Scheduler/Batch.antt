-- ===== src/Scheduler/Batch.antt =====
-- crates/runtime/src/scheduler.rs: batched generation beside the sequential decoding of each prompt.
use mathlib.Core.List.{append-nil, append_assoc, map-append, Perm, perm_append_singleton}
use mathlib.Core.List.Perm
use ocelotl.Common.{
  ℕ, zero, suc, ◌+◌, ◌<◌, ◌≡◌, refl, ap, sym, ◌∙◌, inl, inr, true, false, some, List, [], ◌∷◌, ◌++◌,
  arith, length, All, All-append, map,
}
use ocelotl.Core.Errors.{ok}
use ocelotl.Scheduler.{RequestSlot, ContinuousBatchScheduler, ScheduledGenerationResponse, TokenId}
use ocelotl.Scheduler.Run.{
  emitted, serve, run_loop, rounds, collect, after_loop, run_to_completion, first_event,
}
use ocelotl.Scheduler.State.{decode, is_canceled}
use ocelotl.Scheduler.Invariant.{IsRunning, Inv}
use ocelotl.Scheduler.Progress.{
  admitted, admit_all-Admits, admitted-All, serve_progress, run_loop_done, run_loop_next,
  run_unfolds, List-cases,
}
use ocelotl.Scheduler.Rounds.{
  dropped, requeued, completed, total_model, expected, live, live-append, expected-emitted, Served,
  serve-Served,
}
use ocelotl.Scheduler.Responses.{Ordered, sort-perm, sort-Ordered}

-- The responses still to come, in queue order.
abbrev due : (List TokenId → TokenId) → ContinuousBatchScheduler → List ScheduledGenerationResponse
due next s = s.completed ++ map (expected next) (live s.active)

live_dropped :
    (slot : RequestSlot) (rest : List RequestSlot)
    → is_canceled slot.state ≡ true
    → live (slot ∷ rest) ≡ live rest
live_dropped slot rest c = rw c refl

live_kept :
    (slot : RequestSlot) (rest : List RequestSlot)
    → is_canceled slot.state ≡ false
    → live (slot ∷ rest) ≡ slot ∷ live rest
live_kept slot rest c = rw c refl

due_eq :
    (next : List TokenId → TokenId) (s : ContinuousBatchScheduler)
    (done : List ScheduledGenerationResponse) (queue : List RequestSlot)
    → s.completed ≡ done
    → s.active ≡ queue
    → due next s ≡ done ++ map (expected next) (live queue)
due_eq next s done queue e f = cc

perm_of_eq : {A : Type 0} {xs ys xs' ys' : List A} → xs ≡ xs' → ys ≡ ys' → Perm xs' ys' → Perm xs ys
perm_of_eq e f p = rw (e, f) p

live_requeued :
    (next : List TokenId → TokenId) (slot : RequestSlot) (rest : List RequestSlot)
    → length slot.generated_tokens < slot.max_new_tokens
    → map (expected next) (live (rest ++ emitted slot decode (next slot.prompt_tokens) ∷ []))
      ≡ map (expected next) (live rest) ++ expected next slot ∷ []
live_requeued next slot rest h =
    ap (map (expected next)) (live-append rest (emitted slot decode (next slot.prompt_tokens) ∷ []))
    ∙ map-append (expected next) (live rest) (emitted slot decode (next slot.prompt_tokens) ∷ [])
    ∙ ap (λ r. map (expected next) (live rest) ++ r ∷ []) (expected-emitted next slot decode h)

-- A round turns what is due into the same responses, in some order.
Served-due :
    (next : List TokenId → TokenId) (s t : ContinuousBatchScheduler) (slot : RequestSlot)
    (rest : List RequestSlot)
    → s.active ≡ slot ∷ rest
    → length slot.generated_tokens < slot.max_new_tokens
    → Served next (record s { active = rest }) t slot
    → Perm (due next t) (due next s)
Served-due next s t slot rest e h (dropped c a k) =
    perm_of_eq (due_eq next t s.completed rest k a)
      (due_eq next s s.completed (slot ∷ rest) refl e
        ∙ ap (λ q. s.completed ++ map (expected next) q) (live_dropped slot rest c))
      Perm.rfl
Served-due next s t slot rest e h (requeued c a k) =
    perm_of_eq
      (due_eq next t s.completed _ k a ∙ ap (◌++◌ s.completed) (live_requeued next slot rest h))
      (due_eq next s s.completed (slot ∷ rest) refl e
        ∙ ap (λ q. s.completed ++ map (expected next) q) (live_kept slot rest c))
      (Perm.append_left s.completed (perm_append_singleton _ _))
Served-due next s t slot rest e h (completed c a k) =
    perm_of_eq
      (due_eq next t (s.completed ++ expected next slot ∷ []) rest k a
        ∙ append_assoc s.completed (expected next slot ∷ []) (map (expected next) (live rest)))
      (due_eq next s s.completed (slot ∷ rest) refl e
        ∙ ap (λ q. s.completed ++ map (expected next) q) (live_kept slot rest c))
      Perm.rfl

-- The loop answers all that is due.
run_loop-due :
    (fuel : ℕ) (next : List TokenId → TokenId) (s : ContinuousBatchScheduler)
    → All IsRunning s.active
    → rounds s.active < fuel
    → (t : ContinuousBatchScheduler) × (run_loop fuel (total_model next) s ≡ some (t, ok tt))
      × (t.active ≡ [])
      × (t.pending ≡ s.pending)
      × Perm t.completed (due next s)
run_loop-due zero next s v h = absurd (omega arith)
run_loop-due (suc fuel) next s v h = elim (List-cases s.active) [
  | inl e ↦ (
    s,
    run_loop_done fuel (total_model next) s e,
    e,
    refl,
    perm_of_eq refl (due_eq next s s.completed [] refl e ∙ append-nil s.completed) Perm.rfl,
  )
  | inr (slot, rest, e) ↦
      let w : All IsRunning (slot ∷ rest) = rw e at v in
      let popped = record s { active = rest } in
      let u = (serve (total_model next) popped slot).0 in
      let (kept, less) = serve_progress (total_model next) popped slot w.0 w.1 in
      let few : rounds (slot ∷ rest) < suc fuel = rw e at h in
      let (answered, how, same) = serve-Served next popped slot w.0 in
      let (t, ran, empty, idle, p) = run_loop-due fuel next u kept (omega arith) in
      (
        t,
        run_loop_next fuel (total_model next) s u slot rest e (ap (λ x. (u, x)) answered) ∙ ran,
        empty,
        idle ∙ same,
        Perm.trans p (Served-due next s u slot rest e w.0.1 how),
      )
]

-- With a model that always answers, a run from well-formed queues succeeds and leaves no request
-- pending, active or completed. Its responses, up to their order, are those that were already
-- completed and one for each request in the queues that was not canceled, with the tokens that
-- greedy decoding of that request alone gives. They stand in the order of the first events of
-- their requests.
pub run_matches_sequential :
    (next : List TokenId → TokenId) (s : ContinuousBatchScheduler)
    → Inv s
    → (t : ContinuousBatchScheduler) × (responses : List ScheduledGenerationResponse)
      × (run_to_completion (total_model next) s ≡ some (t, ok responses))
      × Perm responses
          (s.completed ++ map (expected next) (live (s.active ++ map admitted s.pending)))
      × Ordered (λ r. first_event r.request_id t.events 0) responses
      × (t.pending ≡ [])
      × (t.active ≡ [])
      × (t.completed ≡ [])
unfolding after_loop collect
run_matches_sequential next s v =
    let (t, done, a) = admit_all-Admits s.pending s v.waiting in
    let all : All IsRunning t.active = rw a.active_queue (
      All-append IsRunning s.active (map admitted s.pending) v.running
        (admitted-All s.pending v.waiting)) in
    let (u, ran, empty, idle, p) = run_loop-due (rounds t.active + 1) next t all (omega arith) in
    (
      record u { completed = [] },
      _,
      run_unfolds (total_model next) s t (u, ok tt) done ran,
      Perm.trans (sort-perm _ u.completed)
          (perm_of_eq refl (sym (due_eq next t s.completed _ a.same_completed a.active_queue)) p),
      sort-Ordered _ u.completed,
      idle ∙ a.none_pending,
      empty,
      refl,
    )
