-- ===== src/KvCache/Paged/Offsets.antt =====
-- Where `PagedKvCache` stores a position: page after page, each layer's pages in the order of the
-- page table, so that a layer is one run of positions.
use native.Mathlib.Nat.{div-lt_iff_lt-mul, mul-le-mul_right}
use ocelotl.Common.{ℕ, ◌+◌, ◌*◌, ◌/◌, ◌%◌, ◌≤◌, ◌<◌, ◌≡◌, refl, false, [], ◌∷◌, arith, length}
use ocelotl.Core.Errors.{ok}
use ocelotl.Core.Words.{
  usize_range, checked_add_lem, try_product_two, try_product_three, try_product_two-eq-some,
  try_product_three-eq-some, le_mul_left,
}
use ocelotl.Core.KvLayout.{KvCacheLayout, checked_product, values_per_position}
use ocelotl.Core.KvLayout.Offsets.{width, cell_lt, window_step}
use ocelotl.Core.PagedLayout.{logical_page_and_offset, values_per_page_tensor}
use ocelotl.Core.PagedLayout.Pages.{div_facts}
use ocelotl.KvCache.Paged.{PagedKvCache, storage_offset}
use ocelotl.KvCache.Storage.Cells.{cell_start}

-- A cache in use, whose tensors have `n` values and whose table has pages for its capacity.
pub record IsLive {F : Type 0} (n : ℕ) (c : PagedKvCache F) : Type 0 where
  pub active : c.released ≡ false
  pub layers_pos : 0 < c.layout.base.num_layers
  pub capacity_pos : 0 < c.layout.base.capacity_tokens
  pub capacity_usize : c.layout.base.capacity_tokens < usize_range
  pub page_pos : 0 < c.layout.page_size_tokens
  pub width_ok : values_per_position c.layout.base ≡ ok (width c.layout.base)
  pub page_ok :
      values_per_page_tensor c.layout ≡ ok (c.layout.page_size_tokens * width c.layout.base)
  pub fits :
      checked_product (
        c.layout.base.num_layers
        ∷ length c.page_table
        ∷ (c.layout.page_size_tokens * width c.layout.base)
        ∷ [])
      ≡ ok n
  pub covered : c.layout.base.capacity_tokens ≤ length c.page_table * c.layout.page_size_tokens
  pub keys_full : length c.keys ≡ n
  pub values_full : length c.values ≡ n
  pub len_le : c.len_tokens ≤ c.layout.base.capacity_tokens

-- The products of the offset, for layer `i`, logical page `q` and place `o` in the page.
record InRange (b pages page w i q o : ℕ) : Type 0 where
  layer_idx : i < b
  layer_pages : i * pages < b
  layer_base : i * pages * page < b
  page_idx : q < b
  page_base : q * page < b
  token_idx : o < b
  token_base : o * w < b
  first : i * pages * page + q * page < b
  second : i * pages * page + q * page + o * w < b

products_InRange :
    (b l pages ps w i q o : ℕ)
    → l < b
    → l * pages < b
    → l * pages * (ps * w) < b
    → ps < b
    → ps * w < b
    → i < l
    → q < pages
    → o < ps
    → InRange b pages (ps * w) w i q o
products_InRange b l pages ps w i q o h1 h2 h3 h4 h5 il qp op = omega (
  arith,
  window_step i l pages il,
  window_step i l (pages * (ps * w)) il,
  window_step q pages (ps * w) qp,
  window_step o ps w op,
  le_mul_left l pages (omega arith),
  le_mul_left l (pages * (ps * w)) (omega arith),
)

offset_parts :
    (i pages ps w j q o : ℕ)
    → q * ps + o ≡ j
    → i * pages * (ps * w) + q * (ps * w) + o * w ≡ (i * (pages * ps) + j) * w
offset_parts i pages ps w j q o e = rw (← e) (omega arith)

module _ {F : Type 0} (c : PagedKvCache F) (n : ℕ) (live : IsLive n c) where
  abbrev l : KvCacheLayout
  l = c.layout.base

  abbrev ps : ℕ
  ps = c.layout.page_size_tokens

  abbrev pub cols : ℕ
  cols = length c.page_table * ps

  sizes :
      (n ≡ l.num_layers * length c.page_table * (ps * width l))
      × (l.num_layers < usize_range)
      × (l.num_layers * length c.page_table < usize_range)
      × (l.num_layers * length c.page_table * (ps * width l) < usize_range)
  unfolding checked_product
  sizes = ground (
    arith,
    live.fits,
    try_product_three-eq-some l.num_layers (length c.page_table) (ps * width l) {p = n},
  )

  pub tensor_size : n ≡ l.num_layers * cols * width l
  tensor_size = omega (arith, sizes.0)

  page_sizes : (ps < usize_range) × (ps * width l < usize_range)
  unfolding values_per_page_tensor checked_product
  page_sizes =
      ground (
        arith,
        live.page_ok,
        live.width_ok,
        try_product_two-eq-some ps (width l) {p = ps * width l},
      )

  module _ (i j : ℕ) (p : i < l.num_layers) (q : j < l.capacity_tokens) where
    divided :
        (j / ps * ps ≤ j) × (j < j / ps * ps + ps) × (j / ps * ps + j % ps ≡ j) × (j % ps < ps)
    divided = div_facts j ps live.page_pos

    page_exists : j / ps < length c.page_table
    page_exists =
        (div-lt_iff_lt-mul {k = ps} {x = j} {y = length c.page_table} live.page_pos).1
          (omega (arith, live.covered))

    in_range :
        InRange usize_range (length c.page_table) (ps * width l) (width l) i (j / ps) (j % ps)
    in_range =
        products_InRange usize_range l.num_layers (length c.page_table) ps (width l) i (j / ps)
          (j % ps) sizes.1 sizes.2 sizes.3 page_sizes.0 page_sizes.1 p page_exists divided.3

    offset_sum :
        i * length c.page_table * (ps * width l) + j / ps * (ps * width l) + j % ps * width l
        ≡ cell_start cols (width l) i j
    offset_sum = offset_parts i (length c.page_table) ps (width l) j (j / ps) (j % ps) divided.2

    pub storage_offset_lem : storage_offset c i j ≡ ok (cell_start cols (width l) i j)
    unfolding storage_offset logical_page_and_offset checked_product
    storage_offset_lem = ground (
      arith,
      live.page_ok,
      live.width_ok,
      live.page_pos,
      page_exists,
      in_range,
      offset_sum,
      try_product_three i (length c.page_table) (ps * width l),
      try_product_two (j / ps) (ps * width l),
      try_product_two (j % ps) (width l),
      checked_add_lem (i * length c.page_table * (ps * width l)) (j / ps * (ps * width l)),
      checked_add_lem (i * length c.page_table * (ps * width l) + j / ps * (ps * width l))
          (j % ps * width l),
    )

    pub storage_in_range : cell_start cols (width l) i j + width l ≤ n
    storage_in_range = omega (
      arith,
      tensor_size,
      live.covered,
      window_step (i * cols + j) (l.num_layers * cols) (width l)
          (cell_lt l.num_layers cols i j p (omega (arith, live.covered))),
    )

  pub checked_rows :
      (rows : ℕ)
      → rows ≤ l.capacity_tokens
      → checked_product (rows ∷ width l ∷ []) ≡ ok (rows * width l)
  unfolding checked_product
  checked_rows rows h =
      rw
        (try_product_two rows (width l) (omega (arith, live.capacity_usize)) (
          omega (
            arith,
            sizes,
            tensor_size,
            live.covered,
            mul-le-mul_right {m = rows} {n = cols} (width l) (omega (arith, live.covered)),
            le_mul_left l.num_layers (cols * width l) live.layers_pos,
          )))
        refl
