-- ===== src/Whisper/Sampling/Argmax.antt =====
-- The token that the two samplers choose: the first of the largest logits among those allowed.
use ocelotl.Common.{
  ℕ, ◌+◌, ◌<◌, ◌≡◌, inl, inr, Bool, true, false, ◌&&◌, Option, none, some, List, arith, get_elem?,
  Bool-cases, trichotomy,
}

-- The laws of `>` on floats that are not NaN: no two values exceed each other, and what does not
-- exceed a value that does not exceed a third does not exceed the third.
pub record IsOrder {F : Type 0} (gt : F → F → Bool) : Type 0 where
  pub asym : (a b : F) → gt a b ≡ true → gt b a ≡ false
  pub through : (a b c : F) → gt a b ≡ false → gt b c ≡ false → gt a c ≡ false

module _ {F : Type 0} (gt : F → F → Bool) (allowed : ℕ → Bool) (xs : List F) where
  -- `v`, at `i`, is the largest of the allowed values among the first `n`, and the first of them.
  pub record IsBest (n i : ℕ) (v : F) : Type 0 where
    pub inside : i < n
    pub here : get_elem? xs i ≡ some v
    pub free : allowed i ≡ true
    pub most : (j : ℕ) (w : F) → j < n → get_elem? xs j ≡ some w → allowed j ≡ true → gt w v ≡ false
    pub first : (j : ℕ) (w : F) → j < i → get_elem? xs j ≡ some w → allowed j ≡ true → gt v w ≡ true

  -- No value among the first `n` is allowed.
  abbrev pub NoneFree : ℕ → Type 0
  NoneFree n = (j : ℕ) (w : F) → j < n → get_elem? xs j ≡ some w → allowed j ≡ false

  abbrev pub Best : ℕ → Option (ℕ × F) → Type 0
  Best n none = NoneFree n
  Best n (some (i, v)) = IsBest n i v

  pub none_step :
      (n : ℕ) (x : F) → get_elem? xs n ≡ some x → allowed n ≡ false → NoneFree n → NoneFree (n + 1)
  none_step n x e shut_n b j w h g = elim (trichotomy j n) [
    | inl p ↦ b j w p g
    | inr (inl p) ↦ rw p shut_n
    | inr (inr p) ↦ absurd (omega arith)
  ]

  pub first_step :
      (n : ℕ) (x : F)
      → get_elem? xs n ≡ some x
      → allowed n ≡ true
      → NoneFree n
      → gt x x ≡ false
      → IsBest (n + 1) n x
  first_step n x e open_n b irr = record {
    inside = omega arith;
    here = e;
    free = open_n;
    most = λ j w h g k. elim (trichotomy j n) [
      | inl p ↦ absurd (ground (arith, b j w p g))
      | inr (inl p) ↦ ground arith
      | inr (inr p) ↦ absurd (omega arith)
    ];
    first = λ j w h g k. absurd (ground (arith, b j w h g));
  }

  -- The next value does not exceed the best, or is not allowed.
  pub keep_step :
      (n i : ℕ) (v x : F)
      → get_elem? xs n ≡ some x
      → allowed n && gt x v ≡ false
      → IsBest n i v
      → IsBest (n + 1) i v
  keep_step n i v x e shut_n b = record {
    inside = omega (arith, b.inside);
    here = b.here;
    free = b.free;
    most = λ j w h g k. elim (trichotomy j n) [
      | inl p ↦ b.most j w p g k
      | inr (inl p) ↦ ground arith
      | inr (inr p) ↦ absurd (omega arith)
    ];
    first = b.first;
  }

  module _ (o : IsOrder gt) where
    exceeds : (v x w : F) → gt x v ≡ true → gt w v ≡ false → gt x w ≡ true
    exceeds v x w h k = elim (Bool-cases (gt x w)) [
      | inl e ↦ e
      | inr e ↦ absurd (ground (arith, o.through x w v e k))
    ]

    pub irreflexive : (x : F) → gt x x ≡ false
    irreflexive x = elim (Bool-cases (gt x x)) [ inl e ↦ o.asym x x e | inr e ↦ e ]

    pub take_step :
        (n i : ℕ) (v x : F)
        → get_elem? xs n ≡ some x
        → allowed n ≡ true
        → gt x v ≡ true
        → IsBest n i v
        → IsBest (n + 1) n x
    take_step n i v x e open_n h b = record {
      inside = omega arith;
      here = e;
      free = open_n;
      most = λ j w l g k. elim (trichotomy j n) [
        | inl p ↦ o.through w v x (b.most j w p g k) (o.asym x v h)
        | inr (inl p) ↦ ground (arith, irreflexive x)
        | inr (inr p) ↦ absurd (omega arith)
      ];
      first = λ j w l g k. exceeds v x w h (b.most j w l g k);
    }
