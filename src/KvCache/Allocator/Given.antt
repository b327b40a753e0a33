-- ===== src/KvCache/Allocator/Given.antt =====
-- crates/runtime/src/kv_cache.rs, `PagedKvCacheAllocator::allocate`: what is known of a cache that was
-- given out, and of the pool after a refusal.
use ocelotl.Common.{ℕ, ◌≤◌, ◌≡◌, ap, sym, ◌∙◌, subst, List, ◌++◌, arith, length, take, drop}
use ocelotl.Core.Errors.{OcelotlError, Result, ok, err, panic}
use ocelotl.Core.PagedLayout.{PagedKvCacheLayout, required_pages_for_tokens}
use ocelotl.KvCache.Paged.{PagedKvCache, new_with_page_table}
use ocelotl.KvCache.Paged.Contract.{Made, new-Made}
use ocelotl.KvCache.Allocator.{PagedKvCacheAllocator, sort_unstable, put_back, allocate}
use ocelotl.KvCache.Allocator.Pages.{count, count-append, count-sort_unstable, count-take-drop}
use ocelotl.KvCache.Allocator.Outcomes.{
  IsSound, refused, popped, allocate-Outcome, cache_layout, taken,
}

module _ {F : Type 0} where
  put_back_ok :
      (a a' : PagedKvCacheAllocator) (table : List ℕ) (r : Result (PagedKvCache F))
      (c : PagedKvCache F)
      → put_back a table r ≡ (a', ok c)
      → (r ≡ ok c) × (a' ≡ a)
  unfolding put_back
  put_back_ok a a' table (ok d) c h = ground arith
  put_back_ok a a' table (err e) c h = absurd (ground arith)
  put_back_ok a a' table panic c h = absurd (ground arith)

  put_back_err :
      (a a' : PagedKvCacheAllocator) (table : List ℕ) (r : Result (PagedKvCache F))
      (e : OcelotlError)
      → put_back a table r ≡ (a', err e)
      → a' ≡ record a { free_pages = sort_unstable (a.free_pages ++ table) }
  unfolding put_back
  put_back_err a a' table (ok d) e h = absurd (ground arith)
  put_back_err a a' table (err x) e h = ground arith
  put_back_err a a' table panic e h = absurd (ground arith)

returned : (p r : ℕ) (xs : List ℕ) → count p (sort_unstable (drop r xs ++ take r xs)) ≡ count p xs
returned p r xs = omega (
  arith,
  count-sort_unstable p (drop r xs ++ take r xs),
  count-append p (drop r xs) (take r xs),
  count-take-drop p r xs,
)

table-Made :
    {F : Type 0} (z : F) (l : PagedKvCacheLayout) (t : List ℕ) (c : PagedKvCache F)
    → Made z l t c
    → c.page_table ≡ t
table-Made z l t c m = ap (λ (d : PagedKvCache _). d.page_table) m.result

module _ {F : Type 0} (z : F) (a a' : PagedKvCacheAllocator) (capacity : ℕ)
    (s : IsSound a.layout) where
  -- What is known of a cache that was given out.
  pub record Given (c : PagedKvCache F) : Type 0 where
    pub pages : ℕ
    pub pages_ok : required_pages_for_tokens a.layout capacity ≡ ok pages
    pub enough : pages ≤ length a.free_pages
    pub table : c.page_table ≡ take pages a.free_pages
    pub rest : a'.free_pages ≡ drop pages a.free_pages
    pub same : a'.layout ≡ a.layout
    pub made : Made z (cache_layout a.layout capacity) c.page_table c

  pub allocate-Given : (c : PagedKvCache F) → allocate z a capacity ≡ (a', ok c) → Given c
  allocate-Given c h = elim (allocate-Outcome z a capacity s) [
    | refused e q ↦ absurd (ground arith)
    | popped r pos fits e enough q ↦
        let table = take r a.free_pages in
        let l = cache_layout a.layout capacity in
        let back =
          put_back_ok (taken z a capacity s r) a' table (new_with_page_table z l table) c
            (sym q ∙ h) in
        let m = new-Made z l table c back.0 in
        let same_table = table-Made z l table c m in
        record {
          pages = r;
          pages_ok = e;
          enough = enough;
          table = same_table;
          rest = ap (λ (b : PagedKvCacheAllocator). b.free_pages) back.1;
          same = ap (λ (b : PagedKvCacheAllocator). b.layout) back.1;
          made = subst (λ t. Made z l t c) (sym same_table) m;
        }
  ]

  -- An allocation over a sound layout that is refused with an error leaves each page in the free queue
  -- as often as before, and keeps the layout.
  pub refused_keeps_pages :
      (e : OcelotlError) (p : ℕ)
      → allocate z a capacity ≡ (a', err e)
      → (count p a'.free_pages ≡ count p a.free_pages) × (a'.layout ≡ a.layout)
  refused_keeps_pages e p h = elim (allocate-Outcome z a capacity s) [
    | refused x q ↦ (ground arith, ground arith)
    | popped r pos fits f enough q ↦
        let table = take r a.free_pages in
        let l = cache_layout a.layout capacity in
        let back =
          put_back_err (taken z a capacity s r) a' table (new_with_page_table z l table) e
            (sym q ∙ h) in
        (
          ap (λ (b : PagedKvCacheAllocator). count p b.free_pages) back ∙ returned p r a.free_pages,
          ap (λ (b : PagedKvCacheAllocator). b.layout) back,
        )
  ]
