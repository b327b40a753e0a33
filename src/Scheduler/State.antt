-- ===== src/Scheduler/State.antt =====
-- crates/runtime/src/scheduler.rs: the life of a request, `SchedulerRequestState`.
use ocelotl.Common.{Bool, true, false, if◌then◌else◌}
use ocelotl.Core.Errors.{Result, ok, err, runtime_err}

-- `cleaned` is the source's `Cleanup`.
pub data SchedulerRequestState : Type 0 where
  queued prefill decode emit complete canceled cleaned : SchedulerRequestState

-- The `matches!` of `transition`.
abbrev pub allowed : SchedulerRequestState → SchedulerRequestState → Bool
allowed queued prefill = true
allowed prefill decode = true
allowed decode emit = true
allowed emit decode = true
allowed emit complete = true
allowed complete cleaned = true
allowed queued canceled = true
allowed prefill canceled = true
allowed decode canceled = true
allowed emit canceled = true
allowed canceled cleaned = true
allowed _ _ = false

unfoldable pub transition :
    SchedulerRequestState → SchedulerRequestState → Result SchedulerRequestState
transition state next =
    if allowed state next
    then ok next
    else err (runtime_err "invalid scheduler transition {self:?} -> {next:?}")

-- `state == SchedulerRequestState::Canceled`.
abbrev pub is_canceled : SchedulerRequestState → Bool
is_canceled canceled = true
is_canceled _ = false
