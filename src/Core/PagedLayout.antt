-- ===== src/Core/PagedLayout.antt =====
-- crates/core/src/lib.rs, `PagedKvCacheLayout`: a cache layout cut into pages of tokens.
-- `usize` arithmetic panics where it goes out of range, as in a build with overflow checks.
pub mod Pages
use ocelotl.Common.{
  ℕ, ◌+◌, ◌-◌, ◌/◌, ◌%◌, ◌≡◌, refl, Bool, true, false, ◌||◌, Option, none, some, List, [], ◌∷◌,
  String, leb, ltb, ◌==◌, if◌then◌else◌, length, any,
}
use ocelotl.Core.Errors.{Result, ok, err, panic, ◌>>=◌, ◌>>◌, ok_or, runtime_err}
use ocelotl.Core.Words.{checked_add, checked_div}
use ocelotl.Core.KvLayout.{KvCacheLayout, checked_product, values_per_position}

pub record PagedKvCacheLayout : Type 0 where
  pub base : KvCacheLayout
  pub page_size_tokens : ℕ
  pub physical_pages : ℕ

-- `Option::and_then`.
abbrev pub and_then : Option ℕ → (ℕ → Option ℕ) → Option ℕ
and_then none f = none
and_then (some v) f = f v

unfoldable pub required_pages_for_tokens : PagedKvCacheLayout → ℕ → Result ℕ
required_pages_for_tokens l tokens =
    if tokens == 0
    then ok 0
    else (if l.page_size_tokens == 0
        then panic
        else ok_or
            (and_then (checked_add tokens (l.page_size_tokens - 1))
              (λ v. checked_div v l.page_size_tokens))
            (runtime_err "paged kv page count overflowed usize"))

unfoldable pub new : KvCacheLayout → ℕ → ℕ → Result PagedKvCacheLayout
new base page_size_tokens physical_pages =
    if page_size_tokens == 0
    then err (runtime_err "paged kv page_size_tokens must be > 0")
    else (if physical_pages == 0
        then err (runtime_err "paged kv physical_pages must be > 0")
        else do
          let layout : PagedKvCacheLayout = record {
            base = base;
            page_size_tokens = page_size_tokens;
            physical_pages = physical_pages;
          }
          required ← required_pages_for_tokens layout base.capacity_tokens
          if ltb physical_pages required
              then err (
                  runtime_err
                    "paged kv capacity requires {required} pages but allocator has {physical_pages}")
              else ok layout)

unfoldable pub logical_page_and_offset : PagedKvCacheLayout → ℕ → Result (ℕ × ℕ)
logical_page_and_offset l position =
    if leb l.base.capacity_tokens position
    then err (runtime_err "paged kv position {position} out of range for capacity {}")
    else (if l.page_size_tokens == 0
        then panic
        else ok (position / l.page_size_tokens, position % l.page_size_tokens))

unfoldable pub values_per_page_tensor : PagedKvCacheLayout → Result ℕ
values_per_page_tensor l = do
  width ← values_per_position l.base
  checked_product (l.page_size_tokens ∷ width ∷ [])

-- The loop over the table; `seen` is the hash set, as a list.
unfoldable pub validate_pages : ℕ → List ℕ → List ℕ → Result (Unit {0})
validate_pages physical_pages seen [] = ok tt
validate_pages physical_pages seen (page ∷ table) =
    if leb physical_pages page
    then err (runtime_err "paged kv physical page {page} out of range for {} pages")
    else (if any (λ p. p == page) seen
        then err (runtime_err "paged kv physical page {page} appears more than once")
        else validate_pages physical_pages (page ∷ seen) table)

unfoldable pub validate_page_table : PagedKvCacheLayout → List ℕ → Result (Unit {0})
validate_page_table l table = do
  required ← required_pages_for_tokens l l.base.capacity_tokens
  if ltb (length table) required
      then err (runtime_err "paged kv page table has {} pages but capacity requires {required}")
      else validate_pages l.physical_pages [] table
