-- ===== src/Scheduler/Run.antt =====
-- crates/runtime/src/scheduler.rs, `run_to_completion`: the decode loop over the active queue.
-- `none` says that the fuel ran out; the fuel counts the tokens that the active slots still want.
use ocelotl.Common.{
  ℕ, zero, suc, ◌+◌, ◌-◌, Option, none, some, List, [], ◌∷◌, ◌++◌, leb, ◌==◌, if◌then◌else◌, length,
}
use ocelotl.Core.Errors.{Result, ok, err, panic, attempt}
use ocelotl.Core.Words.{usize_max}
use ocelotl.Scheduler.{
  TokenId, ScheduledGenerationResponse, SchedulerEvent, GreedyDecodeModel, RequestSlot,
  ContinuousBatchScheduler, push_event, cleanup, admit_pending,
}
use ocelotl.Scheduler.State.{SchedulerRequestState, decode, emit, complete, is_canceled, transition}

-- The slot with the token that the model gave.
abbrev pub emitted : RequestSlot → SchedulerRequestState → TokenId → RequestSlot
emitted slot state token = record slot {
  prompt_tokens = slot.prompt_tokens ++ token ∷ [];
  generated_tokens = slot.generated_tokens ++ token ∷ [];
  state = state;
}

-- The request has all its tokens.
unfoldable pub finish :
    ContinuousBatchScheduler → RequestSlot → ContinuousBatchScheduler × Result (Unit {0})
unfolding push_event cleanup
finish s slot = attempt (transition slot.state complete) s (λ state.
    let t = push_event slot.request_id complete none s in
    let response : ScheduledGenerationResponse = record {
      request_id = slot.request_id;
      tokens = slot.generated_tokens;
    } in
    cleanup (record t { completed = t.completed ++ response ∷ [] })
      (record slot { generated_tokens = []; state = state }))

-- The request goes to the back of the queue.
unfoldable pub requeue :
    ContinuousBatchScheduler → RequestSlot → ContinuousBatchScheduler × Result (Unit {0})
unfolding push_event
requeue s slot = attempt (transition slot.state decode) s (λ state.
    let t = push_event slot.request_id decode none s in
    (record t { active = t.active ++ record slot { state = state } ∷ [] }, ok tt))

-- The body of the loop, with the slot popped off the queue.
unfoldable pub serve :
    GreedyDecodeModel
    → ContinuousBatchScheduler
    → RequestSlot
    → ContinuousBatchScheduler × Result (Unit {0})
unfolding push_event cleanup finish requeue
serve model s slot =
    if is_canceled slot.state
    then cleanup s slot
    else attempt (transition slot.state emit) s (λ state.
      attempt (model.decode_one slot.prompt_tokens) s (λ token.
        let t = push_event slot.request_id emit (some token) s in
        let slot' = emitted slot state token in
        if length slot'.generated_tokens == slot'.max_new_tokens
        then finish t slot'
        else requeue t slot'))

unfoldable pub run_loop :
    ℕ
    → GreedyDecodeModel
    → ContinuousBatchScheduler
    → Option (ContinuousBatchScheduler × Result (Unit {0}))
run_loop zero model s = none
run_loop (suc fuel) model s = elim s.active [
  | [] ↦ some (s, ok tt)
  | slot ∷ rest ↦
      let (t, r) = serve model (record s { active = rest }) slot in
      elim r [ ok _ ↦ run_loop fuel model t | err e ↦ some (t, err e) | panic ↦ some (t, panic) ]
]

-- The rounds that the slots still take: one for each token wanted, and one to clean up.
abbrev pub rounds : List RequestSlot → ℕ
rounds [] = 0
rounds (slot ∷ slots) = (slot.max_new_tokens - length slot.generated_tokens + 1) + rounds slots

-- `position(..).unwrap_or(usize::MAX)`.
unfoldable pub first_event : ℕ → List SchedulerEvent → ℕ → ℕ
first_event id [] i = usize_max
first_event id (e ∷ es) i = if e.request_id == id then i else first_event id es (i + 1)

-- `sort_by_key`, which is stable.
unfoldable pub insert_by_key :
    (ScheduledGenerationResponse → ℕ)
    → ScheduledGenerationResponse
    → List ScheduledGenerationResponse
    → List ScheduledGenerationResponse
insert_by_key key r [] = r ∷ []
insert_by_key key r (q ∷ qs) =
    if leb (key r) (key q) then r ∷ q ∷ qs else q ∷ insert_by_key key r qs

unfoldable pub sort_by_key :
    (ScheduledGenerationResponse → ℕ)
    → List ScheduledGenerationResponse
    → List ScheduledGenerationResponse
unfolding insert_by_key
sort_by_key key [] = []
sort_by_key key (r ∷ rs) = insert_by_key key r (sort_by_key key rs)

-- `mem::take(&mut self.completed)`, sorted by the first event of each request.
unfoldable pub collect :
    ContinuousBatchScheduler → ContinuousBatchScheduler × Result (List ScheduledGenerationResponse)
unfolding sort_by_key first_event
collect s = (
  record s { completed = [] },
  ok (sort_by_key (λ r. first_event r.request_id s.events 0) s.completed),
)

unfoldable pub after_loop :
    Option (ContinuousBatchScheduler × Result (Unit {0}))
    → Option (ContinuousBatchScheduler × Result (List ScheduledGenerationResponse))
unfolding collect
after_loop none = none
after_loop (some (s, ok _)) = some (collect s)
after_loop (some (s, err e)) = some (s, err e)
after_loop (some (s, panic)) = some (s, panic)

unfoldable pub run_to_completion :
    GreedyDecodeModel
    → ContinuousBatchScheduler
    → Option (ContinuousBatchScheduler × Result (List ScheduledGenerationResponse))
unfolding after_loop
run_to_completion model s =
    let (t, r) = admit_pending s in
    elim r [
      | ok _ ↦ after_loop (run_loop (rounds t.active + 1) model t)
      | err e ↦ some (t, err e)
      | panic ↦ some (t, panic)
    ]
