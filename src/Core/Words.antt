-- ===== src/Core/Words.antt =====
-- `usize` and `u64` on a 64-bit target: the checked operations of the standard library.
use ocelotl.Common.{
  ℕ, ◌+◌, ◌-◌, ◌*◌, ◌/◌, ◌^◌, ◌≤◌, ◌<◌, ◌≡◌, Option, none, some, List, [], ◌∷◌, arith, ltb, leb,
  ◌==◌, if◌then◌else◌, All,
}

-- One more than `usize::MAX`.
abbrev pub usize_range : ℕ
usize_range = 2 ^ 64

-- `usize::MAX`.
abbrev pub usize_max : ℕ
usize_max = usize_range - 1

abbrev pub IsUsize : ℕ → Type 0
IsUsize n = n < usize_range

unfoldable pub checked_add : ℕ → ℕ → Option ℕ
checked_add a b = if ltb (a + b) usize_range then some (a + b) else none

unfoldable pub checked_mul : ℕ → ℕ → Option ℕ
checked_mul a b = if ltb (a * b) usize_range then some (a * b) else none

unfoldable pub checked_sub : ℕ → ℕ → Option ℕ
checked_sub a b = if leb b a then some (a - b) else none

unfoldable pub checked_div : ℕ → ℕ → Option ℕ
checked_div a b = if b == 0 then none else some (a / b)

-- `dims.iter().copied().try_fold(acc, usize::checked_mul)`.
unfoldable pub try_product : ℕ → List ℕ → Option ℕ
try_product acc [] = some acc
try_product acc (d ∷ ds) = elim (checked_mul acc d) [ none ↦ none | some p ↦ try_product p ds ]

abbrev pub product : List ℕ → ℕ
product [] = 1
product (d ∷ ds) = d * product ds

-- An overflow is the only way to fail.
pub checked_add_lem :
    (a b : ℕ)
    → (a + b < usize_range → checked_add a b ≡ some (a + b))
      × (usize_range ≤ a + b → checked_add a b ≡ none)
unfolding checked_add
checked_add_lem a b = ground arith

pub checked_mul_lem :
    (a b : ℕ)
    → (a * b < usize_range → checked_mul a b ≡ some (a * b))
      × (usize_range ≤ a * b → checked_mul a b ≡ none)
unfolding checked_mul
checked_mul_lem a b = ground arith

pub checked_add-eq-some :
    (a b : ℕ) {c : ℕ} → checked_add a b ≡ some c → (c ≡ a + b) × (c < usize_range)
unfolding checked_add
checked_add-eq-some a b h = ground arith

pub checked_mul-eq-some :
    (a b : ℕ) {c : ℕ} → checked_mul a b ≡ some c → (c ≡ a * b) × (c < usize_range)
unfolding checked_mul
checked_mul-eq-some a b h = ground arith

pub try_product_two :
    (a b : ℕ) → a < usize_range → a * b < usize_range → try_product 1 (a ∷ b ∷ []) ≡ some (a * b)
unfolding try_product checked_mul
try_product_two a b h k = ground arith

pub try_product_three :
    (a b c : ℕ)
    → a < usize_range
    → a * b < usize_range
    → a * b * c < usize_range
    → try_product 1 (a ∷ b ∷ c ∷ []) ≡ some (a * b * c)
unfolding try_product checked_mul
try_product_three a b c h k j = ground arith

pub try_product_two-eq-some :
    (a b : ℕ) {p : ℕ}
    → try_product 1 (a ∷ b ∷ []) ≡ some p
    → (p ≡ a * b) × (a < usize_range) × (a * b < usize_range)
unfolding try_product checked_mul
try_product_two-eq-some a b h = ground arith

pub try_product_three-eq-some :
    (a b c : ℕ) {p : ℕ}
    → try_product 1 (a ∷ b ∷ c ∷ []) ≡ some p
    → (p ≡ a * b * c) × (a < usize_range) × (a * b < usize_range) × (a * b * c < usize_range)
unfolding try_product checked_mul
try_product_three-eq-some a b c h = ground arith

pub try_product_four-eq-some :
    (a b c d : ℕ) {p : ℕ}
    → try_product 1 (a ∷ b ∷ c ∷ d ∷ []) ≡ some p
    → (p ≡ a * b * c * d)
      × (a < usize_range)
      × (a * b < usize_range)
      × (a * b * c < usize_range)
      × (a * b * c * d < usize_range)
unfolding try_product checked_mul
try_product_four-eq-some a b c d h = ground arith

pub try_product-eq-some :
    (acc : ℕ) (ds : List ℕ) (p : ℕ) → try_product acc ds ≡ some p → p ≡ acc * product ds
unfolding try_product checked_mul
try_product-eq-some acc [] p h = ground arith
try_product-eq-some acc (d ∷ ds) p h = ground (arith, try_product-eq-some (acc * d) ds p)

product_pos : (ds : List ℕ) → All (λ d. 0 < d) ds → 0 < product ds
product_pos [] h = omega arith
product_pos (d ∷ ds) h = grind (arith, product_pos ds h.1)

pub le_mul_right : (a b : ℕ) → 0 < b → a ≤ a * b
le_mul_right a b h = grind arith

pub le_mul_left : (a b : ℕ) → 0 < a → b ≤ a * b
le_mul_left a b h = grind arith

-- Where no factor is 0, no partial product exceeds the whole.
pub try_product_fits :
    (acc : ℕ) (ds : List ℕ)
    → All (λ d. 0 < d) ds
    → acc * product ds < usize_range
    → try_product acc ds ≡ some (acc * product ds)
unfolding try_product checked_mul
try_product_fits acc [] h k = ground arith
try_product_fits acc (d ∷ ds) h k = ground (
  arith,
  le_mul_right (acc * d) (product ds) (product_pos ds h.1),
  try_product_fits (acc * d) ds h.1 (omega arith),
)

pub try_product_overflows :
    (acc : ℕ) (ds : List ℕ)
    → acc < usize_range
    → usize_range ≤ acc * product ds
    → try_product acc ds ≡ none
unfolding try_product checked_mul
try_product_overflows acc [] h k = absurd (omega arith)
try_product_overflows acc (d ∷ ds) h k = ground (arith, try_product_overflows (acc * d) ds)
