-- ===== src/KvCache/Allocator/Pages.antt =====
-- Counting pages: what the queue operations of the allocator do to the number of times a page occurs.
use mathlib.Core.List.{append-nil, append_assoc}
use ocelotl.Common.{
  ℕ, zero, suc, ◌+◌, ◌≤◌, ◌≡◌, refl, ap, ◌∙◌, List, [], ◌∷◌, ◌++◌, leb, ltb, ◌==◌, if◌then◌else◌,
  ◌&&◌, arith, length, take, drop,
}
use ocelotl.Core.Errors.{ok}
use ocelotl.KvCache.Allocator.{range_from, insert_page, sort_unstable, pop_pages}

-- How often a page occurs.
unfoldable pub count : ℕ → List ℕ → ℕ
count p [] = 0
count p (q ∷ qs) = (if p == q then 1 else 0) + count p qs

pub count-append : (p : ℕ) (xs ys : List ℕ) → count p (xs ++ ys) ≡ count p xs + count p ys
unfolding count
count-append p [] ys = omega arith
count-append p (x ∷ xs) ys = omega (arith, count-append p xs ys)

count-insert_page : (p q : ℕ) (xs : List ℕ) → count p (insert_page q xs) ≡ count p (q ∷ xs)
unfolding count insert_page
count-insert_page p q [] = refl
count-insert_page p q (x ∷ xs) = ground (arith, count-insert_page p q xs)

count-cons :
    (p x : ℕ) (xs ys : List ℕ) → count p xs ≡ count p ys → count p (x ∷ xs) ≡ count p (x ∷ ys)
unfolding count
count-cons p x xs ys h = ap (λ n. (if p == x then 1 else 0) + n) h

pub count-sort_unstable : (p : ℕ) (xs : List ℕ) → count p (sort_unstable xs) ≡ count p xs
unfolding sort_unstable
count-sort_unstable p [] = refl
count-sort_unstable p (x ∷ xs) =
    count-insert_page p x (sort_unstable xs) ∙ count-cons p x _ xs (count-sort_unstable p xs)

pub count-range_from :
    (p start n : ℕ)
    → count p (range_from start n) ≡ (if leb start p && ltb p (start + n) then 1 else 0)
unfolding count range_from
count-range_from p start zero = ground arith
count-range_from p start (suc n) = ground (arith, count-range_from p (suc start) n)

pub count-take-drop :
    (p n : ℕ) (xs : List ℕ) → count p (take n xs) + count p (drop n xs) ≡ count p xs
unfolding count
count-take-drop p zero xs = omega arith
count-take-drop p (suc n) [] = refl
count-take-drop p (suc n) (x ∷ xs) = omega (arith, count-take-drop p n xs)

-- With enough free pages the loop takes the first of them.
pub pop_pages_enough :
    (n : ℕ) (free table : List ℕ)
    → n ≤ length free
    → pop_pages n free table ≡ (drop n free, ok (table ++ take n free))
unfolding pop_pages
pop_pages_enough zero free table h = rw append-nil refl
pop_pages_enough (suc n) [] table h = elim h [ ]
pop_pages_enough (suc n) (x ∷ free) table h =
    pop_pages_enough n free (table ++ x ∷ []) (omega arith)
    ∙ ap (λ t. (drop n free, ok t)) (append_assoc table (x ∷ []) (take n free))
