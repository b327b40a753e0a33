-- ===== src/Scheduler/Tests.antt =====
-- A small queue for crates/runtime/src/scheduler.rs.
use mathlib.Core.List.{Perm}
use ocelotl.Common.{ℕ, ◌+◌, ◌≡◌, Bool, true, some, List, [], ◌∷◌, ◌++◌, map, length}
use ocelotl.Core.Errors.{Result, ok}
use ocelotl.Scheduler.{
  TokenId, ScheduledGenerationRequest, ScheduledGenerationResponse, ContinuousBatchScheduler, new,
  submit, cancel,
}
use ocelotl.Scheduler.Run.{run_to_completion, first_event}
use ocelotl.Scheduler.Invariant.{Inv, new-Inv, submit-Inv, cancel-Inv}
use ocelotl.Scheduler.Progress.{admitted, run_returns}
use ocelotl.Scheduler.Rounds.{total_model, expected, live}
use ocelotl.Scheduler.Responses.{Ordered}
use ocelotl.Scheduler.Batch.{run_matches_sequential}

abbrev request : ℕ → List TokenId → ℕ → ScheduledGenerationRequest
request id prompt wanted = record {
  request_id = id;
  prompt_tokens = prompt;
  max_new_tokens = wanted;
}

abbrev empty : ContinuousBatchScheduler
empty = new (record { max_queue_len = 4 })

abbrev plenty : ℕ → Bool
plenty n = true

-- A long request, then a short one.
abbrev one : ContinuousBatchScheduler
one = (submit plenty empty (request 1 (10 ∷ []) 3)).0

abbrev two : ContinuousBatchScheduler
two = (submit plenty one (request 2 (20 ∷ 21 ∷ []) 1)).0

one-Inv : Inv one
one-Inv = submit-Inv plenty empty (request 1 (10 ∷ []) 3) (new-Inv (record { max_queue_len = 4 }))

submit-Inv_example : Inv two
submit-Inv_example = submit-Inv plenty one (request 2 (20 ∷ 21 ∷ []) 1) one-Inv

two-Inv : Inv two
two-Inv = submit-Inv plenty one (request 2 (20 ∷ 21 ∷ []) 1) one-Inv

cancel-Inv_example : Inv (cancel two 1).0
cancel-Inv_example = cancel-Inv two 1 two-Inv

-- The model that counts on from the length of the prompt.
abbrev counting : List TokenId → TokenId
counting prompt = length prompt + 100

run_returns_example :
    (t : ContinuousBatchScheduler) × (r : Result (List ScheduledGenerationResponse))
    × (run_to_completion (total_model counting) two ≡ some (t, r))
run_returns_example = run_returns (total_model counting) two two-Inv

run_matches_sequential_example :
    (t : ContinuousBatchScheduler) × (responses : List ScheduledGenerationResponse)
    × (run_to_completion (total_model counting) two ≡ some (t, ok responses))
    × Perm responses
        (two.completed ++ map (expected counting) (live (two.active ++ map admitted two.pending)))
    × Ordered (λ r. first_event r.request_id t.events 0) responses
    × (t.pending ≡ [])
    × (t.active ≡ [])
    × (t.completed ≡ [])
run_matches_sequential_example = run_matches_sequential counting two two-Inv
