-- ===== src/Loader/Gguf/Layout/Aligned.antt =====
-- The alignment of the data section and the places of the tensors.
use ocelotl.Common.{
  ℕ, suc, ◌+◌, ◌-◌, ◌*◌, ◌/◌, ◌%◌, ◌≤◌, ◌<◌, ◌≡◌, ap, ◌∙◌, subst, ◌⊎◌, inl, inr, Option, List,
  String, arith,
}
use native.Mathlib.Nat.{div-add-mod, mod-lt, mul-mod_right, lt_of_mul-lt-mul_left, mul-le-mul_left}
use ocelotl.Core.Errors.{ok, err, >>=-eq-ok, OcelotlError}
use ocelotl.Core.Words.{checked_add, usize_range}
use ocelotl.Loader.Gguf.Types.{invalid_gguf, codes, GgufMetadataEntry}
use ocelotl.Loader.Gguf.Layout.{
  metadata_value, alignment_value, check_alignment, alignment_from_metadata, align_offset,
}

check_alignment_ok :
    (path : Option String) (n a : ℕ) → check_alignment path n ≡ ok a → (0 < a) × (a % 8 ≡ 0)
unfolding check_alignment
check_alignment_ok path n a h = (ground arith, ground arith)

pub alignment_ok :
    (path : Option String) (metadata : List GgufMetadataEntry) (a : ℕ)
    → alignment_from_metadata path metadata ≡ ok a
    → (0 < a) × (a % 8 ≡ 0)
unfolding alignment_from_metadata
alignment_ok path metadata a h =
    let (n, _, e) =
      >>=-eq-ok (alignment_value path (metadata_value metadata (codes "general.alignment")))
        (check_alignment path) h in
    check_alignment_ok path n a e

-- The parts of a division by `a`.
less_quotient : (a q q' : ℕ) → a * q < a * q' → a * suc q ≤ a * q'
less_quotient a q q' h = let less : suc q ≤ q' = lt_of_mul-lt-mul_left a h in mul-le-mul_left a less

next_multiple : (n a m : ℕ) → 0 < a → (n % a ≡ 0 → ⊥) → n ≤ m → m % a ≡ 0 → n + (a - n % a) ≤ m
next_multiple n a m h k l e =
    let n_parts : a * (n / a) + n % a ≡ n = div-add-mod n a in
    let m_parts : a * (m / a) + m % a ≡ m = div-add-mod m a in
    let rest : n % a < a = mod-lt n h in
    let pos : 0 < n % a = ground (arith, k) in
    let more : a * suc (n / a) ≤ a * (m / a) = less_quotient a (n / a) (m / a) (omega arith) in
    omega arith

next_multiple_mod : (n a : ℕ) → 0 < a → (n + (a - n % a)) % a ≡ 0
next_multiple_mod n a h =
    let n_parts : a * (n / a) + n % a ≡ n = div-add-mod n a in
    let rest : n % a < a = mod-lt n h in
    let whole : n + (a - n % a) ≡ a * suc (n / a) = omega arith in
    ap (λ x. x % a) whole ∙ mul-mod_right a (suc (n / a))

aligned_or_not : (n : ℕ) → (n ≡ 0) ⊎ (n ≡ 0 → ⊥)
aligned_or_not n = ground arith

-- For a positive alignment and an offset: the result is the least multiple of the alignment from the
-- offset on, where that fits a `u64`, and an error otherwise.
pub align_offset_least :
    (path : Option String) (offset alignment : ℕ)
    → 0 < alignment
    → offset < usize_range
    → (d : ℕ) × (offset ≤ d)
      × (d % alignment ≡ 0)
      × ((m : ℕ) → offset ≤ m → m % alignment ≡ 0 → d ≤ m)
      × (d < usize_range → align_offset path offset alignment ≡ ok d)
      × (usize_range ≤ d → (e : OcelotlError) × (align_offset path offset alignment ≡ err e))
unfolding align_offset checked_add
align_offset_least path offset a h k = elim (aligned_or_not (offset % a)) [
  | inl z ↦ (offset, omega arith, z, λ m l e. l, λ l. ground arith, λ l. absurd (omega arith))
  | inr z ↦ (
    offset + (a - offset % a),
    omega arith,
    next_multiple_mod offset a h,
    λ m l e. next_multiple offset a m h z l e,
    λ l. ground arith,
    λ l. (invalid_gguf path "alignment" "GGUF aligned offset overflows u64", ground arith),
  )
]

pub align_offset_ok :
    (path : Option String) (offset a d : ℕ) → 0 < a → align_offset path offset a ≡ ok d → d % a ≡ 0
unfolding align_offset checked_add
align_offset_ok path offset a d h e = elim (aligned_or_not (offset % a)) [
  | inl z ↦ let same : offset ≡ d = ground arith in subst (λ x. x % a ≡ 0) same z
  | inr z ↦
      let same : offset + (a - offset % a) ≡ d = ground arith in
      subst (λ x. x % a ≡ 0) same (next_multiple_mod offset a h)
]
