-- ===== src/Scheduler.antt =====
-- crates/runtime/src/scheduler.rs: the continuous-batch scheduler. A method returns the new
-- scheduler with its result, on errors too. `try_reserve_exact` of the standard library enters as
-- the parameter `can_reserve` of `submit`, which says whether room for that many tokens is found.
pub mod State
pub mod Run
pub mod Invariant
pub mod Progress
pub mod Rounds
pub mod Responses
pub mod Batch
mod Tests
use ocelotl.Common.{
  ℕ, zero, suc, ◌+◌, Bool, true, false, ◌&&◌, ◌||◌, Option, none, some, List, [], ◌∷◌, ◌++◌, leb,
  ◌==◌, if◌then◌else◌, length, is_empty, any,
}
use ocelotl.Core.Errors.{Result, ok, err, panic, attempt, invalid_request_err, runtime_err}
use ocelotl.Core.Words.{usize_max}
use ocelotl.Core.Limits.{RequestLimits, validate, validate_generation, default_limits}
pub use ocelotl.Core.Tokens.{TokenId}
use State.{
  SchedulerRequestState, queued, prefill, decode, emit, complete, canceled, cleaned, is_canceled,
  transition,
}

pub record SchedulerConfig : Type 0 where
  pub max_queue_len : ℕ

abbrev pub default_config : SchedulerConfig
default_config = record { max_queue_len = 128 }

pub record ScheduledGenerationRequest : Type 0 where
  pub request_id : ℕ
  pub prompt_tokens : List TokenId
  pub max_new_tokens : ℕ

pub record ScheduledGenerationResponse : Type 0 where
  pub request_id : ℕ
  pub tokens : List TokenId

pub record SchedulerEvent : Type 0 where
  pub request_id : ℕ
  pub state : SchedulerRequestState
  pub token : Option TokenId

pub record GreedyDecodeModel : Type 0 where
  pub decode_one : List TokenId → Result TokenId

pub record RequestSlot : Type 0 where
  pub request_id : ℕ
  pub prompt_tokens : List TokenId
  pub generated_tokens : List TokenId
  pub max_new_tokens : ℕ
  pub state : SchedulerRequestState

pub record ContinuousBatchScheduler : Type 0 where
  pub config : SchedulerConfig
  pub limits : RequestLimits
  pub pending : List RequestSlot
  pub active : List RequestSlot
  pub completed : List ScheduledGenerationResponse
  pub cleanup_log : List ℕ
  pub events : List SchedulerEvent

unfoldable pub new : SchedulerConfig → ContinuousBatchScheduler
new config = record {
  config = config;
  limits = default_limits;
  pending = [];
  active = [];
  completed = [];
  cleanup_log = [];
  events = [];
}

unfoldable pub with_limits : SchedulerConfig → RequestLimits → Result ContinuousBatchScheduler
with_limits config limits = elim (validate limits) [
  | ok _ ↦ ok (record (new config) { limits = limits })
  | err e ↦ err e
  | panic ↦ panic
]

-- `self.events.push(SchedulerEvent { .. })`.
unfoldable pub push_event :
    ℕ → SchedulerRequestState → Option TokenId → ContinuousBatchScheduler → ContinuousBatchScheduler
push_event id state token s = record s {
  events = s.events ++ record { request_id = id; state = state; token = token } ∷ [];
}

unfoldable pub start_new_batch_history_if_idle : ContinuousBatchScheduler → ContinuousBatchScheduler
start_new_batch_history_if_idle s =
    if is_empty s.pending && is_empty s.active && is_empty s.completed
    then record s { events = []; cleanup_log = [] }
    else s

abbrev pub is_scheduled : ContinuousBatchScheduler → ℕ → Bool
is_scheduled s id =
    any (λ slot. slot.request_id == id) (s.pending ++ s.active)
    || any (λ response. response.request_id == id) s.completed

unfoldable pub enqueue :
    ContinuousBatchScheduler → ScheduledGenerationRequest → ContinuousBatchScheduler
unfolding push_event start_new_batch_history_if_idle
enqueue s request =
    let t = push_event request.request_id queued none (start_new_batch_history_if_idle s) in
    record t {
      pending =
          t.pending
          ++ record {
            request_id = request.request_id;
            prompt_tokens = request.prompt_tokens;
            generated_tokens = [];
            max_new_tokens = request.max_new_tokens;
            state = queued;
          }
            ∷ [];
    }

unfoldable pub submit :
    (ℕ → Bool)
    → ContinuousBatchScheduler
    → ScheduledGenerationRequest
    → ContinuousBatchScheduler × Result (Unit {0})
submit can_reserve s request =
    if leb s.config.max_queue_len (length s.pending + length s.active)
    then (
      s,
      err (invalid_request_err "scheduler.queue" "queue is full at configured max_queue_len {}"),
    )
    else (if is_empty request.prompt_tokens
        then (s, err (invalid_request_err "prompt_tokens" "must contain at least one token"))
        else (if request.max_new_tokens == 0
            then (s, err (invalid_request_err "max_new_tokens" "must be greater than zero"))
            else attempt
                (validate_generation s.limits (length request.prompt_tokens) request.max_new_tokens)
                s
                (λ _.
                  if is_scheduled s request.request_id
                  then (
                    s,
                    err (invalid_request_err "request_id" "request id {} is already scheduled"),
                  )
                  else (if can_reserve request.max_new_tokens then (enqueue s request, ok tt) else (
                    s,
                    err (runtime_err "failed to reserve {} generated tokens: {source}"),
                  )))))

unfoldable pub cleanup :
    ContinuousBatchScheduler → RequestSlot → ContinuousBatchScheduler × Result (Unit {0})
unfolding push_event
cleanup s slot = attempt (transition slot.state cleaned) s (λ _.
    let t = push_event slot.request_id cleaned none s in
    (record t { cleanup_log = t.cleanup_log ++ slot.request_id ∷ [] }, ok tt))

-- `position` and `remove`: the first slot with the id, and the queue without it.
unfoldable pub take_slot : ℕ → List RequestSlot → Option (RequestSlot × List RequestSlot)
take_slot id [] = none
take_slot id (slot ∷ slots) =
    if slot.request_id == id
    then some (slot, slots)
    else elim (take_slot id slots) [ none ↦ none | some (x, rest) ↦ some (x, slot ∷ rest) ]

unfoldable pub find_slot : ℕ → List RequestSlot → Option RequestSlot
find_slot id [] = none
find_slot id (slot ∷ slots) = if slot.request_id == id then some slot else find_slot id slots

-- The assignment through `iter_mut().find(..)`: the first slot with the id gets the state.
unfoldable pub set_state : ℕ → SchedulerRequestState → List RequestSlot → List RequestSlot
set_state id state [] = []
set_state id state (slot ∷ slots) =
    if slot.request_id == id
    then record slot { state = state } ∷ slots
    else slot ∷ set_state id state slots

unfoldable pub cancel_active :
    ContinuousBatchScheduler → ℕ → ContinuousBatchScheduler × Result (Unit {0})
unfolding push_event find_slot set_state
cancel_active s id = elim (find_slot id s.active) [
  | none ↦ (s, err (runtime_err "request {request_id} is not pending or active"))
  | some slot ↦ attempt (transition slot.state canceled) s (λ state.
      (push_event id state none (record s { active = set_state id state s.active }), ok tt))
]

unfoldable pub cancel : ContinuousBatchScheduler → ℕ → ContinuousBatchScheduler × Result (Unit {0})
unfolding push_event take_slot
cancel s id = elim (take_slot id s.pending) [
  | none ↦ cancel_active s id
  | some (slot, rest) ↦
      let t = record s { pending = rest } in
      attempt (transition slot.state canceled) t
        (λ state. cleanup (push_event id state none t) (record slot { state = state }))
]

-- The loop of `admit_pending`, over the slots that are still pending.
unfoldable pub admit_all :
    List RequestSlot → ContinuousBatchScheduler → ContinuousBatchScheduler × Result (Unit {0})
admit_all [] s = (record s { pending = [] }, ok tt)
admit_all (slot ∷ rest) s =
    let popped = record s { pending = rest } in
    attempt (transition slot.state prefill) popped (λ filling.
      let t = push_event slot.request_id filling none popped in
      attempt (transition filling decode) t (λ decoding.
        let u = push_event slot.request_id decoding none t in
        admit_all rest (record u { active = u.active ++ record slot { state = decoding } ∷ [] })))

unfoldable pub admit_pending :
    ContinuousBatchScheduler → ContinuousBatchScheduler × Result (Unit {0})
unfolding admit_all push_event
admit_pending s = admit_all s.pending s
