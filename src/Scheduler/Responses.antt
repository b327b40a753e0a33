-- ===== src/Scheduler/Responses.antt =====
-- crates/runtime/src/scheduler.rs: the order in which the responses of a run are returned.
use mathlib.Core.List.{Perm}
use mathlib.Core.List.Perm
use ocelotl.Common.{
  ℕ, ◌≤◌, inl, inr, List, [], ◌∷◌, arith, leb, leb→le, leb_not→lt, All-map, All, Bool-cases,
}
use ocelotl.Scheduler.{ScheduledGenerationResponse}
use ocelotl.Scheduler.Run.{sort_by_key, insert_by_key}

pub insert-perm :
    (key : ScheduledGenerationResponse → ℕ) (r : ScheduledGenerationResponse)
    (rs : List ScheduledGenerationResponse)
    → Perm (insert_by_key key r rs) (r ∷ rs)
unfolding insert_by_key
insert-perm key r [] = Perm.rfl
insert-perm key r (q ∷ qs) = elim (Bool-cases (leb (key r) (key q))) [
  | inl e ↦ rw e Perm.rfl
  | inr e ↦ rw e (Perm.trans (Perm.cons q (insert-perm key r qs)) (Perm.swap r q qs))
]

pub sort-perm :
    (key : ScheduledGenerationResponse → ℕ) (rs : List ScheduledGenerationResponse)
    → Perm (sort_by_key key rs) rs
unfolding sort_by_key
sort-perm key [] = Perm.rfl
sort-perm key (r ∷ rs) =
    Perm.trans (insert-perm key r (sort_by_key key rs)) (Perm.cons r (sort-perm key rs))

-- Each response's key is at most that of every later one.
abbrev pub Ordered : (ScheduledGenerationResponse → ℕ) → List ScheduledGenerationResponse → Type 0
Ordered key [] = Unit {0}
Ordered key (r ∷ rs) = All (λ q. key r ≤ key q) rs × Ordered key rs

module _ (key : ScheduledGenerationResponse → ℕ) where
  insert-All :
      (n : ℕ) (r : ScheduledGenerationResponse) (rs : List ScheduledGenerationResponse)
      → n ≤ key r
      → All (λ q. n ≤ key q) rs
      → All (λ q. n ≤ key q) (insert_by_key key r rs)
  unfolding insert_by_key
  insert-All n r [] h v = (h, tt)
  insert-All n r (q ∷ qs) h v = ground (arith, insert-All n r qs h v.1)

  insert-Ordered :
      (r : ScheduledGenerationResponse) (rs : List ScheduledGenerationResponse)
      → Ordered key rs
      → Ordered key (insert_by_key key r rs)
  unfolding insert_by_key
  insert-Ordered r [] v = (tt, tt)
  insert-Ordered r (q ∷ qs) v = elim (Bool-cases (leb (key r) (key q))) [
    | inl e ↦
        let h : key r ≤ key q = leb→le _ _ e in
        rw e ((h, All-map (λ x. key q ≤ key x) (λ x. key r ≤ key x) qs (λ x k. omega arith) v.0), v)
    | inr e ↦
        let h : key q ≤ key r = omega (arith, leb_not→lt (key r) (key q) e) in
        rw e (insert-All (key q) r qs h v.0, insert-Ordered r qs v.1)
  ]

  pub sort-Ordered : (rs : List ScheduledGenerationResponse) → Ordered key (sort_by_key key rs)
  unfolding sort_by_key
  sort-Ordered [] = tt
  sort-Ordered (r ∷ rs) = insert-Ordered r (sort_by_key key rs) (sort-Ordered rs)
