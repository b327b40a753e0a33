-- ===== src/Core/PagedLayout/Pages.antt =====
-- How many pages `PagedKvCacheLayout` asks for, and what a table that passes validation is.
use native.Mathlib.Nat.{div-add-mod', mod-lt, mul-le-mul_right}
use ocelotl.Common.{
  ℕ, zero, suc, ◌+◌, ◌-◌, ◌*◌, ◌/◌, ◌%◌, ◌≤◌, ◌<◌, ◌≡◌, ◌≢◌, ◌↔◌, refl, inl, inr, false, List, [],
  ◌∷◌, ◌==◌, arith, length, trichotomy, any, All,
}
use ocelotl.Core.Errors.{ok, >>=-eq-ok}
use ocelotl.Core.Words.{checked_add, checked_div, usize_range}
use ocelotl.Core.PagedLayout.{
  PagedKvCacheLayout, required_pages_for_tokens, validate_pages, validate_page_table,
}

pub div_facts :
    (a d : ℕ)
    → 0 < d
    → (a / d * d ≤ a) × (a < a / d * d + d) × (a / d * d + a % d ≡ a) × (a % d < d)
div_facts a d h = omega (arith, div-add-mod' a d, mod-lt a {m = d} h)

-- For pages of at least one token, the page count asked for is the least that holds the tokens.
pub required_pages_least :
    (l : PagedKvCacheLayout) (tokens r : ℕ)
    → 0 < l.page_size_tokens
    → required_pages_for_tokens l tokens ≡ ok r
    → (tokens ≤ r * l.page_size_tokens) × (r * l.page_size_tokens < tokens + l.page_size_tokens)
unfolding required_pages_for_tokens checked_add checked_div
required_pages_least l tokens r p h =
    ground (arith, div_facts (tokens + (l.page_size_tokens - 1)) l.page_size_tokens p)

-- For pages of at least one token, a count is given where the tokens and one page together do not
-- exceed the range of `usize`.
pub required_pages_given :
    (l : PagedKvCacheLayout) (tokens : ℕ)
    → 0 < l.page_size_tokens
    → tokens + l.page_size_tokens ≤ usize_range
    → (r : ℕ) × (required_pages_for_tokens l tokens ≡ ok r)
unfolding required_pages_for_tokens checked_add checked_div
required_pages_given l zero p h = (0, refl)
required_pages_given l (suc t) p h =
    ((suc t + (l.page_size_tokens - 1)) / l.page_size_tokens, ground arith)

pub required_pages_usize :
    (l : PagedKvCacheLayout) (tokens r : ℕ)
    → 0 < l.page_size_tokens
    → 0 < tokens
    → required_pages_for_tokens l tokens ≡ ok r
    → tokens + l.page_size_tokens ≤ usize_range
unfolding required_pages_for_tokens checked_add checked_div
required_pages_usize l tokens r p q h = ground arith

-- Fewer tokens want no more pages.
pub required_pages_mono :
    (l : PagedKvCacheLayout) (s t r q : ℕ)
    → 0 < l.page_size_tokens
    → s ≤ t
    → required_pages_for_tokens l t ≡ ok r
    → required_pages_for_tokens l s ≡ ok q
    → q ≤ r
required_pages_mono l s t r q p h er eq = elim (trichotomy r q) [
  | inl lt ↦ absurd (
      omega (
        arith,
        required_pages_least l t r p er,
        required_pages_least l s q p eq,
        mul-le-mul_right {m = suc r} {n = q} l.page_size_tokens lt,
      ))
  | inr (inl e) ↦ omega arith
  | inr (inr gt) ↦ omega arith
]

abbrev pub Distinct : List ℕ → Type 0
Distinct [] = Unit {0}
Distinct (x ∷ xs) = All (λ y. x ≢ y) xs × Distinct xs

abbrev Unseen : List ℕ → List ℕ → Type 0
Unseen seen table = All (λ p. any (λ q. q == p) seen ≡ false) table

Unseen-cons :
    (page : ℕ) (seen table : List ℕ)
    → All (λ y. page ≢ y) table
    → Unseen seen table
    → Unseen (page ∷ seen) table
Unseen-cons page seen [] d u = tt
Unseen-cons page seen (p ∷ table) d u =
    (ground (arith, d.0, u.0), Unseen-cons page seen table d.1 u.1)

seen_cons :
    (page : ℕ) (seen table : List ℕ)
    → Unseen (page ∷ seen) table
    → All (λ y. page ≢ y) table × Unseen seen table
seen_cons page seen [] u = (tt, tt)
seen_cons page seen (p ∷ table) u =
    let rest = seen_cons page seen table u.1 in ((ground arith, rest.0), (ground arith, rest.1))

Unseen-nil : (table : List ℕ) → Unseen [] table
Unseen-nil [] = tt
Unseen-nil (p ∷ table) = (refl, Unseen-nil table)

validate_pages_accepts :
    (n : ℕ) (seen table : List ℕ)
    → All (λ p. p < n) table
    → Distinct table
    → Unseen seen table
    → validate_pages n seen table ≡ ok tt
unfolding validate_pages
validate_pages_accepts n seen [] b d u = refl
validate_pages_accepts n seen (p ∷ table) b d u =
    ground
      (arith, validate_pages_accepts n (p ∷ seen) table b.1 d.1 (Unseen-cons p seen table d.0 u.1))

validate_pages_sound :
    (n : ℕ) (seen table : List ℕ)
    → validate_pages n seen table ≡ ok tt
    → All (λ p. p < n) table × Distinct table × Unseen seen table
unfolding validate_pages
validate_pages_sound n seen [] h = (tt, tt, tt)
validate_pages_sound n seen (p ∷ table) h =
    let inside : p < n = ground arith in
    let fresh : any (λ q. q == p) seen ≡ false = ground arith in
    let (b, d, u) = validate_pages_sound n (p ∷ seen) table (ground arith) in
    let (e, v) = seen_cons p seen table u in ((inside, b), (e, d), (fresh, v))

-- For a layout whose page count `r` is known, a table is valid exactly when it has `r` pages at
-- least, all of them exist, and none appears twice.
pub validate_page_table_iff :
    (l : PagedKvCacheLayout) (table : List ℕ) (r : ℕ)
    → required_pages_for_tokens l l.base.capacity_tokens ≡ ok r
    → (validate_page_table l table ≡ ok tt)
      ↔ ((r ≤ length table) × All (λ p. p < l.physical_pages) table × Distinct table)
unfolding validate_page_table
validate_page_table_iff l table r e = (forth, back)
  where
    forth :
        validate_page_table l table ≡ ok tt
        → (r ≤ length table) × All (λ p. p < l.physical_pages) table × Distinct table
    forth h =
        let (b, d, u) = validate_pages_sound l.physical_pages [] table (ground arith) in
        (ground arith, b, d)

    back :
        (r ≤ length table) × All (λ p. p < l.physical_pages) table × Distinct table
        → validate_page_table l table ≡ ok tt
    back (n, b, d) =
        ground (arith, validate_pages_accepts l.physical_pages [] table b d (Unseen-nil table))

-- A valid table has room for the capacity, which lies in the range of `usize`.
pub valid_table_covers :
    (l : PagedKvCacheLayout) (table : List ℕ)
    → 0 < l.page_size_tokens
    → 0 < l.base.capacity_tokens
    → validate_page_table l table ≡ ok tt
    → (l.base.capacity_tokens ≤ length table * l.page_size_tokens)
      × (l.base.capacity_tokens < usize_range)
unfolding validate_page_table
valid_table_covers l table p q h =
    let (r, e, f) = >>=-eq-ok (required_pages_for_tokens l l.base.capacity_tokens) _ h in
    let least = required_pages_least l l.base.capacity_tokens r p e in
    let n : r ≤ length table = ground arith in
    (
      omega (arith, least, mul-le-mul_right {m = r} {n = length table} l.page_size_tokens n),
      omega (arith, required_pages_usize l l.base.capacity_tokens r p q e),
    )
