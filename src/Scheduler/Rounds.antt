-- ===== src/Scheduler/Rounds.antt =====
-- crates/runtime/src/scheduler.rs: one round of the decode loop with a model that always answers.
use mathlib.Core.List.{append_assoc}
use ocelotl.Common.{
  ℕ, zero, suc, ◌+◌, ◌-◌, ◌<◌, ◌≡◌, refl, ap, ◌∙◌, inl, inr, true, false, List, [], ◌∷◌, ◌++◌, ◌==◌,
  arith, length, ==→eq, Bool-cases, length-append, if◌then◌else◌,
}
use ocelotl.Core.Errors.{ok}
use ocelotl.Scheduler.{
  RequestSlot, ContinuousBatchScheduler, GreedyDecodeModel, ScheduledGenerationResponse, TokenId,
}
use ocelotl.Scheduler.Run.{emitted, serve}
use ocelotl.Scheduler.State.{SchedulerRequestState, decode, canceled, is_canceled, transition}
use ocelotl.Scheduler.Invariant.{IsRunning}

-- `n` tokens of greedy decoding from a prompt, where `next` is the model's choice.
abbrev pub greedy : (List TokenId → TokenId) → ℕ → List TokenId → List TokenId
greedy next zero prompt = []
greedy next (suc n) prompt = next prompt ∷ greedy next n (prompt ++ next prompt ∷ [])

-- A model that always answers.
abbrev pub total_model : (List TokenId → TokenId) → GreedyDecodeModel
total_model next = record { decode_one = λ prompt. ok (next prompt) }

abbrev pub response : ℕ → List TokenId → ScheduledGenerationResponse
response id tokens = record { request_id = id; tokens = tokens }

-- The response that a slot is heading for.
abbrev pub expected : (List TokenId → TokenId) → RequestSlot → ScheduledGenerationResponse
expected next slot = record {
  request_id = slot.request_id;
  tokens =
      slot.generated_tokens
      ++ greedy next (slot.max_new_tokens - length slot.generated_tokens) slot.prompt_tokens;
}

-- The slots that were not canceled.
abbrev pub live : List RequestSlot → List RequestSlot
live [] = []
live (slot ∷ slots) = if is_canceled slot.state then live slots else slot ∷ live slots

pub live-append : (xs ys : List RequestSlot) → live (xs ++ ys) ≡ live xs ++ live ys
live-append [] ys = refl
live-append (x ∷ xs) ys = ground (arith, live-append xs ys)

sub_cases : (n m : ℕ) → m < n → (k : ℕ) × (n - m ≡ suc k) × (n - (m + 1) ≡ k)
sub_cases n m h = (n - (m + 1), omega arith, refl)

pub greedy_step :
    (next : List TokenId → TokenId) (g p : List TokenId) (m : ℕ)
    → length g < m
    → (g ++ next p ∷ []) ++ greedy next (m - length (g ++ next p ∷ [])) (p ++ next p ∷ [])
      ≡ g ++ greedy next (m - length g) p
greedy_step next g p m h =
    let (k, e, f) = sub_cases m (length g) h in
    let f' : m - length (g ++ next p ∷ []) ≡ k = omega (arith, f, length-append g (next p ∷ [])) in
    rw (e, f') (append_assoc g (next p ∷ []) (greedy next k (p ++ next p ∷ [])))

pub greedy_last :
    (next : List TokenId → TokenId) (g p : List TokenId) (m : ℕ)
    → length (g ++ next p ∷ []) ≡ m
    → g ++ next p ∷ [] ≡ g ++ greedy next (m - length g) p
greedy_last next g p m h =
    let e : m - length g ≡ 1 = omega (arith, length-append g (next p ∷ [])) in rw e refl

-- A round on a live slot does not change what it is heading for.
pub expected-emitted :
    (next : List TokenId → TokenId) (slot : RequestSlot) (state : SchedulerRequestState)
    → length slot.generated_tokens < slot.max_new_tokens
    → expected next (emitted slot state (next slot.prompt_tokens)) ≡ expected next slot
expected-emitted next slot state h =
    ap (response slot.request_id)
      (greedy_step next slot.generated_tokens slot.prompt_tokens slot.max_new_tokens h)

-- What one round does, with a model that answers: the slot is cleaned up, requeued or completed.
pub data Served (next : List TokenId → TokenId) (s t : ContinuousBatchScheduler)
    (slot : RequestSlot) : Type 0 where
  dropped :
      is_canceled slot.state ≡ true
      → t.active ≡ s.active
      → t.completed ≡ s.completed
      → Served next s t slot
  requeued :
      is_canceled slot.state ≡ false
      → t.active ≡ s.active ++ emitted slot decode (next slot.prompt_tokens) ∷ []
      → t.completed ≡ s.completed
      → Served next s t slot
  completed :
      is_canceled slot.state ≡ false
      → t.active ≡ s.active
      → t.completed ≡ s.completed ++ expected next slot ∷ []
      → Served next s t slot

module _ (model : GreedyDecodeModel) (s : ContinuousBatchScheduler) (slot : RequestSlot) where
  abbrev served : ContinuousBatchScheduler
  served = (serve model s slot).0

  serve_dropped :
      slot.state ≡ canceled
      → ((serve model s slot).1 ≡ ok tt)
        × (served.active ≡ s.active)
        × (served.completed ≡ s.completed)
        × (served.pending ≡ s.pending)
  unfolding serve transition
  serve_dropped e = ground arith

  serve_requeued :
      (token : TokenId)
      → slot.state ≡ decode
      → model.decode_one slot.prompt_tokens ≡ ok token
      → (length (slot.generated_tokens ++ token ∷ []) == slot.max_new_tokens) ≡ false
      → ((serve model s slot).1 ≡ ok tt)
        × (served.active ≡ s.active ++ emitted slot decode token ∷ [])
        × (served.completed ≡ s.completed)
        × (served.pending ≡ s.pending)
  unfolding serve transition
  serve_requeued token e f h = ground arith

  serve_completed :
      (token : TokenId)
      → slot.state ≡ decode
      → model.decode_one slot.prompt_tokens ≡ ok token
      → (length (slot.generated_tokens ++ token ∷ []) == slot.max_new_tokens) ≡ true
      → ((serve model s slot).1 ≡ ok tt)
        × (served.active ≡ s.active)
        × (served.completed
            ≡ s.completed ++ response slot.request_id (slot.generated_tokens ++ token ∷ []) ∷ [])
        × (served.pending ≡ s.pending)
  unfolding serve transition
  serve_completed token e f h = ground arith

pub serve-Served :
    (next : List TokenId → TokenId) (s : ContinuousBatchScheduler) (slot : RequestSlot)
    → IsRunning slot
    → ((serve (total_model next) s slot).1 ≡ ok tt)
      × Served next s (serve (total_model next) s slot).0 slot
      × ((serve (total_model next) s slot).0.pending ≡ s.pending)
serve-Served next s slot (inr c, h) =
    let (r, a, k, w) = serve_dropped (total_model next) s slot c in
    (r, dropped (ground arith) a k, w)
serve-Served next s slot (inl d, h) =
    let token = next slot.prompt_tokens in
    elim (Bool-cases (length (slot.generated_tokens ++ token ∷ []) == slot.max_new_tokens)) [
      | inl full ↦
          let (r, a, k, w) = serve_completed (total_model next) s slot token d refl full in
          (
            r,
            completed (ground arith) a (
                k
                ∙ ap (λ tokens. s.completed ++ response slot.request_id tokens ∷ [])
                    (greedy_last next slot.generated_tokens slot.prompt_tokens slot.max_new_tokens
                      (==→eq _ _ full))),
            w,
          )
      | inr short ↦
          let (r, a, k, w) = serve_requeued (total_model next) s slot token d refl short in
          (r, requeued (ground arith) a k, w)
    ]
