-- ===== src/Core/KvLayout/Offsets.antt =====
-- crates/core/src/lib.rs, `KvCacheLayout`: the windows of the positions in the flat storage.
use native.Mathlib.Nat.{mul-le-mul_right}
use ocelotl.Common.{
  ℕ, suc, ◌+◌, ◌*◌, ◌≤◌, ◌<◌, ◌≡◌, refl, ◌⊎◌, inl, inr, [], ◌∷◌, arith, trichotomy,
}
use ocelotl.Core.Errors.{ok}
use ocelotl.Core.Words.{
  usize_range, checked_add_lem, try_product_two, try_product_three, try_product_four-eq-some,
  le_mul_left,
}
use ocelotl.Core.KvLayout.{
  KvCacheLayout, checked_product, values_per_position, values_per_layer_tensor,
  values_per_all_key_tensors, layer_position_offset,
}

-- The values of one position, and where those of a position of a layer begin.
abbrev pub width : KvCacheLayout → ℕ
width l = l.num_key_value_heads * l.head_dim

abbrev pub window : KvCacheLayout → ℕ → ℕ → ℕ
window l layer position = (layer * l.capacity_tokens + position) * width l

-- Row `layer`, column `position` of a table of `c` columns.
pub cell_lt : (r c i j : ℕ) → i < r → j < c → i * c + j < r * c
cell_lt r c i j h k = grind arith

pub window_step : (a b w : ℕ) → a < b → a * w + w ≤ b * w
window_step a b w h = omega (arith, mul-le-mul_right {m = suc a} {n = b} w h)

pub cell_ne :
    (c i j i' j' : ℕ)
    → j < c
    → j' < c
    → (i ≡ i' → j ≡ j' → ⊥)
    → (i * c + j < i' * c + j') ⊎ (i' * c + j' < i * c + j)
cell_ne c i j i' j' h k n = elim (trichotomy i i') [
  | inl p ↦ inl (omega (arith, window_step i i' c p))
  | inr (inr p) ↦ inr (omega (arith, window_step i' i c p))
  | inr (inl e) ↦ elim (trichotomy j j') [
    | inl p ↦ inl (rw e (omega arith))
    | inr (inl f) ↦ absurd (n e f)
    | inr (inr p) ↦ inr (rw e (omega arith))
  ]
]

-- A sub-product of a product that is in range, and the place of a cell in it.
record InRange (b c h d i j : ℕ) : Type 0 where
  layer_idx : i < b
  position_idx : j < b
  row : c < b
  row_heads : c * h < b
  row_all : c * h * d < b
  heads : h < b
  cell : h * d < b
  layer_base : i * (c * h * d) < b
  position_base : j * (h * d) < b
  offset : i * (c * h * d) + j * (h * d) < b

products_InRange :
    (b l c h d i j : ℕ)
    → l < b
    → l * c < b
    → l * c * h < b
    → l * c * h * d < b
    → i < l
    → j < c
    → InRange b c h d i j
products_InRange b l c h d i j p q r s il jc = omega (
  arith,
  le_mul_left l c (omega arith),
  le_mul_left l (c * h) (omega arith),
  le_mul_left l (c * h * d) (omega arith),
  le_mul_left c h (omega arith),
  le_mul_left c (h * d) (omega arith),
  window_step (i * c + j) (l * c) (h * d) (cell_lt l c i j il jc),
)

module _ (l : KvCacheLayout) (n : ℕ) (fits : values_per_all_key_tensors l ≡ ok n) where
  open l use {num_layers, capacity_tokens, num_key_value_heads, head_dim}

  size_facts :
      (n ≡ num_layers * capacity_tokens * num_key_value_heads * head_dim)
      × (num_layers < usize_range)
      × (num_layers * capacity_tokens < usize_range)
      × (num_layers * capacity_tokens * num_key_value_heads < usize_range)
      × (num_layers * capacity_tokens * num_key_value_heads * head_dim < usize_range)
  unfolding values_per_all_key_tensors checked_product
  size_facts = ground (
    arith,
    try_product_four-eq-some num_layers capacity_tokens num_key_value_heads head_dim {p = n},
  )

  module _ (layer position : ℕ) (p : layer < num_layers) (q : position < capacity_tokens) where
    -- What the checked products of the layout compute, none of them overflowing.
    in_window : window l layer position + width l ≤ n
    in_window = omega (
      arith,
      size_facts.0,
      window_step (layer * capacity_tokens + position) (num_layers * capacity_tokens) (width l)
          (cell_lt num_layers capacity_tokens layer position p q),
    )

    in_range : InRange usize_range capacity_tokens num_key_value_heads head_dim layer position
    in_range =
        products_InRange usize_range num_layers capacity_tokens num_key_value_heads head_dim layer
          position size_facts.1 size_facts.2 size_facts.3 size_facts.4 p q

    width_lem : values_per_position l ≡ ok (width l)
    unfolding values_per_position checked_product
    width_lem = rw (try_product_two num_key_value_heads head_dim in_range.heads in_range.cell) refl

    layer_values_lem :
        values_per_layer_tensor l ≡ ok (capacity_tokens * num_key_value_heads * head_dim)
    unfolding values_per_layer_tensor checked_product
    layer_values_lem =
        rw
          (try_product_three capacity_tokens num_key_value_heads head_dim in_range.row
            in_range.row_heads in_range.row_all)
          refl

    -- The offset is the window, and the window lies within the tensor.
    offset_lem : layer_position_offset l layer position ≡ ok (window l layer position)
    unfolding layer_position_offset checked_product
    offset_lem = ground (
      arith,
      layer_values_lem,
      width_lem,
      in_range,
      try_product_two layer (capacity_tokens * num_key_value_heads * head_dim),
      try_product_two position (width l),
      checked_add_lem (layer * (capacity_tokens * num_key_value_heads * head_dim))
          (position * width l),
    )

pub window_disjoint :
    (l : KvCacheLayout) (layer position layer' position' : ℕ)
    → position < l.capacity_tokens
    → position' < l.capacity_tokens
    → (layer ≡ layer' → position ≡ position' → ⊥)
    → (window l layer position + width l ≤ window l layer' position')
      ⊎ (window l layer' position' + width l ≤ window l layer position)
window_disjoint l layer position layer' position' p q n =
    elim (cell_ne l.capacity_tokens layer position layer' position' p q n) [
      | inl h ↦ inl (window_step _ _ (width l) h)
      | inr h ↦ inr (window_step _ _ (width l) h)
    ]

-- Where the tensors of a layout have `n` values and the layer and position exist, the offset of
-- that position is found without overflow, and the values of the position lie within the `n`.
pub layer_position_offset_in_bounds :
    (l : KvCacheLayout) (n layer position : ℕ)
    → values_per_all_key_tensors l ≡ ok n
    → layer < l.num_layers
    → position < l.capacity_tokens
    → (values_per_position l ≡ ok (width l))
      × (layer_position_offset l layer position ≡ ok (window l layer position))
      × (window l layer position + width l ≤ n)
layer_position_offset_in_bounds l n layer position fits p q = (
  width_lem l n fits layer position p q,
  offset_lem l n fits layer position p q,
  in_window l n fits layer position p q,
)

offset_exists :
    (l : KvCacheLayout) (layer position o : ℕ)
    → layer_position_offset l layer position ≡ ok o
    → (layer < l.num_layers) × (position < l.capacity_tokens)
unfolding layer_position_offset
offset_exists l layer position o h = ground arith

-- Where the tensors of a layout fit and each position has `w` values: the offsets of two positions
-- that differ in layer or place begin windows of `w` values that do not overlap.
pub layer_position_offset_disjoint :
    (l : KvCacheLayout) (n w layer position o layer' position' o' : ℕ)
    → values_per_all_key_tensors l ≡ ok n
    → values_per_position l ≡ ok w
    → layer_position_offset l layer position ≡ ok o
    → layer_position_offset l layer' position' ≡ ok o'
    → (layer ≡ layer' → position ≡ position' → ⊥)
    → (o + w ≤ o') ⊎ (o' + w ≤ o)
layer_position_offset_disjoint l n w layer position o layer' position' o' fits hw h h' ne =
    let p = offset_exists l layer position o h in
    let p' = offset_exists l layer' position' o' h' in
    let b = layer_position_offset_in_bounds l n layer position fits p.0 p.1 in
    let b' = layer_position_offset_in_bounds l n layer' position' fits p'.0 p'.1 in
    let ew : w ≡ width l = ground arith in
    let eo : o ≡ window l layer position = ground arith in
    let eo' : o' ≡ window l layer' position' = ground arith in
    rw (ew, eo, eo') (window_disjoint l layer position layer' position' p.1 p'.1 ne)

pub tensor_size :
    (l : KvCacheLayout) (n : ℕ)
    → values_per_all_key_tensors l ≡ ok n
    → n ≡ l.num_layers * l.capacity_tokens * width l
tensor_size l n fits = omega (arith, (size_facts l n fits).0)

-- The values of some positions of one layer can be counted.
pub checked_rows :
    (l : KvCacheLayout) (n rows : ℕ)
    → values_per_all_key_tensors l ≡ ok n
    → 0 < l.num_layers
    → rows ≤ l.capacity_tokens
    → checked_product (rows ∷ width l ∷ []) ≡ ok (rows * width l)
unfolding checked_product
checked_rows l n rows fits p h =
    let facts = size_facts l n fits in
    rw
      (try_product_two rows (width l)
        (omega (arith, facts, le_mul_left l.num_layers l.capacity_tokens p))
        (omega (
          arith,
          facts,
          mul-le-mul_right {m = rows} {n = l.capacity_tokens} (width l) h,
          le_mul_left l.num_layers (l.capacity_tokens * width l) p,
        )))
      refl
