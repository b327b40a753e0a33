-- ===== src/KvCache/Allocator.antt =====
-- crates/runtime/src/kv_cache.rs, `PagedKvCacheAllocator`: the pool of free physical pages.
-- A method returns the new allocator with its result, on errors too.
pub mod Pages
pub mod Outcomes
pub mod Given
pub mod Conservation
use ocelotl.Common.{
  ℕ, zero, suc, ◌*◌, Bool, true, false, ◌||◌, List, [], ◌∷◌, ◌++◌, ltb, leb, ◌==◌, if◌then◌else◌,
  length,
}
use ocelotl.Core.Errors.{Result, ok, err, panic, ◌>>=◌, ◌>>◌, attempt, runtime_err}
use ocelotl.Core.Panics.{isize_max, allocated}
use ocelotl.Core.PagedLayout
use ocelotl.Core.PagedLayout.{PagedKvCacheLayout, required_pages_for_tokens}
use ocelotl.KvCache.Storage.{validate_cpu_f32_layout}
use ocelotl.KvCache.Paged
use ocelotl.KvCache.Paged.{PagedKvCache, new_with_page_table}

pub record PagedKvCacheAllocator : Type 0 where
  pub layout : PagedKvCacheLayout
  pub free_pages : List ℕ

-- `start..start + n`.
unfoldable pub range_from : ℕ → ℕ → List ℕ
range_from start zero = []
range_from start (suc n) = start ∷ range_from (suc start) n

-- `make_contiguous().sort_unstable()`.
unfoldable pub insert_page : ℕ → List ℕ → List ℕ
insert_page p [] = p ∷ []
insert_page p (q ∷ qs) = if leb p q then p ∷ q ∷ qs else q ∷ insert_page p qs

unfoldable pub sort_unstable : List ℕ → List ℕ
unfolding insert_page
sort_unstable [] = []
sort_unstable (p ∷ ps) = insert_page p (sort_unstable ps)

unfoldable pub new : PagedKvCacheLayout → Result PagedKvCacheAllocator
unfolding range_from
new layout = do
  validate_cpu_f32_layout layout.base
  free_pages ← allocated (8 * layout.physical_pages) (range_from 0 layout.physical_pages)
  ok (record { layout = layout; free_pages = free_pages })

unfoldable pub free_page_count : PagedKvCacheAllocator → ℕ
free_page_count a = length a.free_pages

-- The loop that pops `n` pages off the front of the queue; what was popped before an error is gone.
unfoldable pub pop_pages : ℕ → List ℕ → List ℕ → List ℕ × Result (List ℕ)
pop_pages zero free table = (free, ok table)
pop_pages (suc n) [] table = ([], err (runtime_err "paged kv free-page queue underflowed"))
pop_pages (suc n) (page ∷ free) table = pop_pages n free (table ++ page ∷ [])

module _ {F : Type 0} where
  -- The pages go back where the cache cannot be made.
  unfoldable pub put_back :
      PagedKvCacheAllocator
      → List ℕ
      → Result (PagedKvCache F)
      → PagedKvCacheAllocator × Result (PagedKvCache F)
  put_back a table (ok cache) = (a, ok cache)
  put_back a table (err e) =
      (record a { free_pages = sort_unstable (a.free_pages ++ table) }, err e)
  put_back a table panic = (a, panic)

  unfoldable pub allocate :
      F → PagedKvCacheAllocator → ℕ → PagedKvCacheAllocator × Result (PagedKvCache F)
  allocate zero_value a capacity_tokens =
      if capacity_tokens == 0 || ltb a.layout.base.capacity_tokens capacity_tokens
      then (
        a,
        err (
            runtime_err
              "paged kv requested capacity {capacity_tokens} outside allocator capacity {}"),
      )
      else attempt (required_pages_for_tokens a.layout capacity_tokens) a (λ required.
        if ltb (length a.free_pages) required
        then (
          a,
          err (runtime_err "paged kv allocation needs {required} pages but only {} are free"),
        )
        else (let popped = pop_pages required a.free_pages [] in
            let b = record a { free_pages = popped.0 } in
            attempt popped.1 b (λ table.
              attempt
                (PagedLayout.new (record a.layout.base { capacity_tokens = capacity_tokens })
                  a.layout.page_size_tokens a.layout.physical_pages)
                b
                (λ cache_layout.
                  put_back b table (new_with_page_table zero_value cache_layout table)))))

  unfoldable pub release : PagedKvCacheAllocator → PagedKvCache F → PagedKvCacheAllocator
  release a cache = record a {
    free_pages = sort_unstable (a.free_pages ++ (Paged.release cache).1);
  }
