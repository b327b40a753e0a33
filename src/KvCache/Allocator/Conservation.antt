-- ===== src/KvCache/Allocator/Conservation.antt =====
-- crates/runtime/src/kv_cache.rs, `PagedKvCacheAllocator` with its caches in use, as a step relation.
use mathlib.Core.Path.{ap₂}
use ocelotl.Common.{
  ℕ, ◌+◌, ◌*◌, ◌≤◌, ◌<◌, ◌≡◌, refl, ap, sym, ◌∙◌, subst, List, [], ◌∷◌, ◌++◌, ltb, if◌then◌else◌,
  arith, length, take-append-drop, length-take_within,
}
use ocelotl.Core.Errors.{OcelotlError, ok, err, >>=-eq-ok}
use ocelotl.Core.PagedLayout.{PagedKvCacheLayout}
use ocelotl.Core.PagedLayout.Pages.{required_pages_least}
use ocelotl.KvCache.Storage.{validate_cpu_f32_layout}
use ocelotl.KvCache.Paged
use ocelotl.KvCache.Paged.{PagedKvCache, new_with_page_table}
use ocelotl.KvCache.Allocator
use ocelotl.KvCache.Allocator.{
  PagedKvCacheAllocator, range_from, sort_unstable, put_back, allocate, release,
}
use ocelotl.KvCache.Allocator.Pages.{
  count, count-append, count-sort_unstable, count-range_from, count-take-drop,
}
use ocelotl.KvCache.Allocator.Outcomes.{IsSound, cache_layout}
use ocelotl.KvCache.Allocator.Given.{allocate-Given, refused_keeps_pages}

-- How often a page is held by some caches.
unfoldable pub held : {F : Type 0} → ℕ → List (PagedKvCache F) → ℕ
held p [] = 0
held p (c ∷ cs) = count p c.page_table + held p cs

-- The pool with the caches that are in use.
pub record Pool (F : Type 0) : Type 0 where
  pub allocator : PagedKvCacheAllocator
  pub live : List (PagedKvCache F)

-- One call on the pool: a cache is given out, a request is refused, or a cache in use is released.
pub data Step {F : Type 0} (z : F) (s t : Pool F) : Type 0 where
  gives :
      (capacity : ℕ) (a : PagedKvCacheAllocator) (c : PagedKvCache F)
      → allocate z s.allocator capacity ≡ (a, ok c)
      → t ≡ record { allocator = a; live = c ∷ s.live }
      → Step z s t
  refuses :
      (capacity : ℕ) (a : PagedKvCacheAllocator) (e : OcelotlError)
      → allocate z s.allocator capacity ≡ (a, err e)
      → t ≡ record s { allocator = a }
      → Step z s t
  releases :
      (c : PagedKvCache F) (before after : List (PagedKvCache F))
      → s.live ≡ before ++ c ∷ after
      → t ≡ record { allocator = release s.allocator c; live = before ++ after }
      → Step z s t

pub data Reach {F : Type 0} (z : F) (s : Pool F) : Pool F → Type 0 where
  here : Reach z s s
  next : {t u : Pool F} → Reach z s t → Step z t u → Reach z s u

-- How often a page occurs in the pool, free or held.
abbrev pub total : {F : Type 0} → ℕ → Pool F → ℕ
total p s = count p s.allocator.free_pages + held p s.live

held-append :
    {F : Type 0} (p : ℕ) (cs ds : List (PagedKvCache F)) → held p (cs ++ ds) ≡ held p cs + held p ds
unfolding held
held-append p [] ds = omega arith
held-append p (c ∷ cs) ds = omega (arith, held-append p cs ds)

Step-total :
    {F : Type 0} (z : F) (s t : Pool F) (p : ℕ)
    → IsSound s.allocator.layout
    → Step z s t
    → (total p t ≡ total p s) × (t.allocator.layout ≡ s.allocator.layout)
unfolding held release Paged.release
Step-total z s t p v (gives n a c h e) =
    let g = allocate-Given z s.allocator a n v c h in
    ground (arith, g, e, count-take-drop p g.pages s.allocator.free_pages)
Step-total z s t p v (refuses n a x h e) =
    ground (arith, e, refused_keeps_pages z s.allocator a n v x p h)
Step-total z s t p v (releases c before after h e) = ground (
  arith,
  e,
  h,
  count-sort_unstable p (s.allocator.free_pages ++ c.page_table),
  count-append p s.allocator.free_pages c.page_table,
  held-append p before (c ∷ after),
  held-append p before after,
)

Reach-total :
    {F : Type 0} (z : F) (s t : Pool F) (p : ℕ)
    → IsSound s.allocator.layout
    → Reach z s t
    → (total p t ≡ total p s) × (t.allocator.layout ≡ s.allocator.layout)
Reach-total z s t p v here = (refl, refl)
Reach-total z s t p v (next {t = u} r st) =
    let before = Reach-total z s u p v r in
    let after = Step-total z u t p (subst IsSound (sym before.1) v) st in
    (after.0 ∙ before.0, after.1 ∙ before.1)

new_allocator :
    (l : PagedKvCacheLayout) (a : PagedKvCacheAllocator)
    → Allocator.new l ≡ ok a
    → a ≡ record { layout = l; free_pages = range_from 0 l.physical_pages }
unfolding Allocator.new
new_allocator l a h =
    let (_, _, made) = >>=-eq-ok (validate_cpu_f32_layout l.base) _ h in ground arith

-- From a new allocator over a sound layout, however many caches are given out, refused and
-- released: each physical page is in exactly one place, once in the free queue or once in the table
-- of one cache in use, and no other page occurs anywhere.
pub pages_conserved :
    {F : Type 0} (z : F) (l : PagedKvCacheLayout) (a : PagedKvCacheAllocator) (t : Pool F) (p : ℕ)
    → IsSound l
    → Allocator.new l ≡ ok a
    → Reach z (record { allocator = a; live = [] }) t
    → total p t ≡ (if ltb p l.physical_pages then 1 else 0)
unfolding held
pages_conserved {F} z l a t p v h r =
    let made : a ≡ record { layout = l; free_pages = range_from 0 l.physical_pages } =
      new_allocator l a h in
    let same : a.layout ≡ l = ap (λ (b : PagedKvCacheAllocator). b.layout) made in
    let kept =
      (Reach-total z (record { allocator = a; live = [] }) t p (subst IsSound (sym same) v) r).0 in
    let pages = ap (λ (b : PagedKvCacheAllocator). count p b.free_pages) made in
    ground (arith, kept, pages, count-range_from p 0 l.physical_pages)

-- A cache that an allocator over a sound layout gives out for `capacity` tokens takes its pages
-- from the front of the free queue, in order, and leaves the others; their number is the least that
-- holds the tokens; and the cache has the allocator's layout with that capacity.
pub allocate_takes_front :
    {F : Type 0} (z : F) (a a' : PagedKvCacheAllocator) (capacity : ℕ) (c : PagedKvCache F)
    → IsSound a.layout
    → allocate z a capacity ≡ (a', ok c)
    → (c.page_table ++ a'.free_pages ≡ a.free_pages)
      × (capacity ≤ length c.page_table * a.layout.page_size_tokens)
      × (length c.page_table * a.layout.page_size_tokens < capacity + a.layout.page_size_tokens)
      × (c.layout ≡ cache_layout a.layout capacity)
      × (a'.layout ≡ a.layout)
allocate_takes_front z a a' capacity c v h =
    let g = allocate-Given z a a' capacity v c h in
    let n : length c.page_table ≡ g.pages =
      ap length g.table ∙ length-take_within g.pages a.free_pages g.enough in
    let least = required_pages_least a.layout capacity g.pages v.page_pos g.pages_ok in
    (
      ap₂ (◌++◌) g.table g.rest ∙ take-append-drop g.pages a.free_pages,
      rw n least.0,
      rw n least.1,
      ap (λ (d : PagedKvCache _). d.layout) g.made.result,
      g.same,
    )
