-- ===== src/KvCache/Allocator/Outcomes.antt =====
-- What `allocate` does on each of its branches.
use ocelotl.Common.{
  ℕ, ◌≤◌, ◌<◌, ◌≡◌, refl, sym, subst, inl, inr, ◌||◌, [], ltb, Option, none, some, ◌==◌, arith,
  length, take, drop, Bool-cases, ltb_not→le, ◌≢◌, ◌-◌,
}
use ocelotl.Core.Errors.{OcelotlError, Result, ok, err, panic, ok_or, runtime_err, Result-cases}
use ocelotl.Core.Words.{checked_add, checked_div}
use ocelotl.Core.KvLayout.{KvCacheLayout}
use ocelotl.Core.PagedLayout
use ocelotl.Core.PagedLayout.{PagedKvCacheLayout, and_then, required_pages_for_tokens}
use ocelotl.Core.PagedLayout.Pages.{required_pages_mono}
use ocelotl.KvCache.Paged.{PagedKvCache, new_with_page_table}
use ocelotl.KvCache.Allocator.{PagedKvCacheAllocator, put_back, allocate}
use ocelotl.KvCache.Allocator.Pages.{pop_pages_enough}

-- A layout as `PagedKvCacheLayout::new` makes it.
pub record IsSound (l : PagedKvCacheLayout) : Type 0 where
  pub page_pos : 0 < l.page_size_tokens
  pub pages_pos : 0 < l.physical_pages
  pub most : ℕ
  pub most_ok : required_pages_for_tokens l l.base.capacity_tokens ≡ ok most
  pub most_le : most ≤ l.physical_pages

abbrev raw_layout : KvCacheLayout → ℕ → ℕ → PagedKvCacheLayout
raw_layout base ps pp = record { base = base; page_size_tokens = ps; physical_pages = pp }

pub new-IsSound :
    (base : KvCacheLayout) (ps pp : ℕ) (l : PagedKvCacheLayout)
    → PagedLayout.new base ps pp ≡ ok l
    → IsSound l
unfolding PagedLayout.new
new-IsSound base ps pp l h =
    elim (Result-cases (required_pages_for_tokens (raw_layout base ps pp) base.capacity_tokens)) [
      | inl (r, e) ↦
          let made : l ≡ raw_layout base ps pp = ground arith in
          let sound : IsSound (raw_layout base ps pp) = record {
            page_pos = ground arith;
            pages_pos = ground arith;
            most = r;
            most_ok = e;
            most_le = ground arith;
          } in
          subst IsSound (sym made) sound
      | inr (inl (x, e)) ↦ absurd (ground arith)
      | inr (inr e) ↦ absurd (ground arith)
    ]

-- The layout of a cache for `capacity` tokens.
abbrev pub cache_layout : PagedKvCacheLayout → ℕ → PagedKvCacheLayout
cache_layout l capacity = record l { base = record l.base { capacity_tokens = capacity } }

same_pages :
    (l : PagedKvCacheLayout) (capacity t : ℕ)
    → required_pages_for_tokens (cache_layout l capacity) t ≡ required_pages_for_tokens l t
unfolding required_pages_for_tokens
same_pages l capacity t = refl

-- The second construction of a layout in `allocate` cannot fail.
pub cache_layout_ok :
    (l : PagedKvCacheLayout) (capacity r : ℕ)
    → IsSound l
    → capacity ≤ l.base.capacity_tokens
    → required_pages_for_tokens l capacity ≡ ok r
    → PagedLayout.new
        (record l.base { capacity_tokens = capacity })
        l.page_size_tokens
        l.physical_pages
      ≡ ok (cache_layout l capacity)
unfolding PagedLayout.new
cache_layout_ok l capacity r s h e = ground (
  arith,
  s,
  same_pages l capacity capacity,
  required_pages_mono l capacity l.base.capacity_tokens s.most r,
)

ok_or-ne-panic : (o : Option ℕ) (x : OcelotlError) → ¬ (ok_or o x ≡ panic)
ok_or-ne-panic none x e = cc
ok_or-ne-panic (some n) x e = cc

required-ne-panic :
    (l : PagedKvCacheLayout) (t : ℕ)
    → 0 < l.page_size_tokens
    → ¬ (required_pages_for_tokens l t ≡ panic)
unfolding required_pages_for_tokens
required-ne-panic l t p e =
    let run : ok_or
          (and_then (checked_add t (l.page_size_tokens - 1))
            (λ v. checked_div v l.page_size_tokens))
          (runtime_err "paged kv page count overflowed usize")
        ≢ panic =
      ok_or-ne-panic _ _ in
    ground arith

abbrev outside_err : OcelotlError
outside_err =
    runtime_err "paged kv requested capacity {capacity_tokens} outside allocator capacity {}"

abbrev short_err : OcelotlError
short_err = runtime_err "paged kv allocation needs {required} pages but only {} are free"

module _ {F : Type 0} (z : F) (a : PagedKvCacheAllocator) (capacity : ℕ)
    (s : IsSound a.layout) where
  abbrev pub taken : ℕ → PagedKvCacheAllocator
  taken r = record a { free_pages = drop r a.free_pages }

  -- Either nothing was taken from the queue, or the pages for the capacity were.
  pub data Outcome (result : PagedKvCacheAllocator × Result (PagedKvCache F)) : Type 0 where
    refused : (e : OcelotlError) → result ≡ (a, err e) → Outcome result
    popped :
        (r : ℕ)
        → 0 < capacity
        → capacity ≤ a.layout.base.capacity_tokens
        → required_pages_for_tokens a.layout capacity ≡ ok r
        → r ≤ length a.free_pages
        → result
          ≡ put_back
              (taken r)
              (take r a.free_pages)
              (new_with_page_table z (cache_layout a.layout capacity) (take r a.free_pages))
        → Outcome result

  pub allocate-Outcome : Outcome (allocate z a capacity)
  unfolding allocate
  allocate-Outcome =
      elim (Bool-cases (capacity == 0 || ltb a.layout.base.capacity_tokens capacity)) [
        | inl outside ↦ refused outside_err (rw outside refl)
        | inr inside ↦ elim (Result-cases (required_pages_for_tokens a.layout capacity)) [
          | inl (r, e) ↦ elim (Bool-cases (ltb (length a.free_pages) r)) [
            | inl short ↦ refused short_err (rw (inside, e, short) refl)
            | inr enough ↦
                let h : r ≤ length a.free_pages = ltb_not→le (length a.free_pages) r enough in
                let k : capacity ≤ a.layout.base.capacity_tokens = ground arith in
                popped r (ground arith) k e h (
                  rw
                    (
                      inside,
                      e,
                      enough,
                      pop_pages_enough r a.free_pages [] h,
                      cache_layout_ok a.layout capacity r s k e,
                    )
                    refl)
          ]
          | inr (inl (x, e)) ↦ refused x (rw (inside, e) refl)
          | inr (inr e) ↦ absurd (required-ne-panic a.layout capacity s.page_pos e)
        ]
      ]
