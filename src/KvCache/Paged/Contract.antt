-- ===== src/KvCache/Paged/Contract.antt =====
-- `PagedKvCache` as an implementation of `KvCacheStore`, and what a new cache represents.
use ocelotl.Common.{
  ℕ, ◌*◌, ◌≤◌, ◌<◌, ◌≡◌, refl, ap, ◌∙◌, false, true, List, [], ◌∷◌, arith, length, replicate,
  length-replicate,
}
use ocelotl.Common.Slices.{length-splice}
use ocelotl.Core.Errors.{ok, >>=-eq-ok}
use ocelotl.Core.Words.{usize_range, try_product_two-eq-some}
use ocelotl.Core.KvLayout.{KvCacheLayout, checked_product, values_per_position}
use ocelotl.Core.KvLayout.Offsets.{width}
use ocelotl.Core.PagedLayout.{PagedKvCacheLayout, values_per_page_tensor, validate_page_table}
use ocelotl.Core.PagedLayout.Pages.{valid_table_covers}
use ocelotl.KvCache.Storage.{validate_cpu_f32_layout, filled}
use ocelotl.KvCache.Storage.Rows.{gather}
use ocelotl.KvCache.Storage.Cells.{Contents, put, Holds, splice-Holds, replicate-Holds}
use ocelotl.KvCache.Paged.{
  PagedKvCache, new_with_page_table, ensure_active, set_len_tokens, write_layer_kv, read_layer_keys,
  read_layer_values,
}
use ocelotl.KvCache.Paged.Offsets.{IsLive, cols, tensor_size}
use ocelotl.KvCache.Paged.Laws.{Represents, start, write_in_range, write_out_of_range, read_rows}
use ocelotl.KvCache.Store.{KvCacheStore, writable}

checked_product_two : (a b v : ℕ) → checked_product (a ∷ b ∷ []) ≡ ok v → v ≡ a * b
unfolding checked_product
checked_product_two a b v h = ground (arith, try_product_two-eq-some a b {p = v})

position_width : (l : KvCacheLayout) (w : ℕ) → values_per_position l ≡ ok w → w ≡ width l
unfolding values_per_position
position_width l w h = checked_product_two l.num_key_value_heads l.head_dim w h

page_width :
    (l : PagedKvCacheLayout) (v : ℕ)
    → values_per_page_tensor l ≡ ok v
    → (v ≡ l.page_size_tokens * width l.base) × (values_per_position l.base ≡ ok (width l.base))
unfolding values_per_page_tensor
page_width l v h =
    let (w, e, f) = >>=-eq-ok (values_per_position l.base) _ h in
    let g : w ≡ width l.base = position_width l.base w e in
    (rw (← g) (checked_product_two l.page_size_tokens w v f), e ∙ ap ok g)

module _ {F : Type 0} where
  pub write_accepted :
      (c : PagedKvCache F) (ks vs : Contents F) (i j : ℕ) (key value : List F)
      → Represents c ks vs
      → writable c.layout.base i j key value ≡ true
      → (c' : PagedKvCache F) × (write_layer_kv c i j key value ≡ ok c')
        × (c'.layout.base ≡ c.layout.base)
        × Represents c' (put ks i j key) (put vs i j value)
  write_accepted c ks vs i j key value r h = (
    _,
    write_in_range c r.total r.live i j key value p q e f,
    refl,
    record {
      total = r.total;
      live = record {
        active = r.live.active;
        layers_pos = r.live.layers_pos;
        capacity_pos = r.live.capacity_pos;
        capacity_usize = r.live.capacity_usize;
        page_pos = r.live.page_pos;
        width_ok = r.live.width_ok;
        page_ok = r.live.page_ok;
        fits = r.live.fits;
        covered = r.live.covered;
        keys_full = length-splice c.keys (start c r.total r.live i j) key ∙ r.live.keys_full;
        values_full =
            length-splice c.values (start c r.total r.live i j) value ∙ r.live.values_full;
        len_le = r.live.len_le;
      };
      keys_hold =
          splice-Holds c.layout.base.num_layers c.layout.base.capacity_tokens _ _ c.keys ks i j key
            r.live.covered (omega (arith, size, r.live.keys_full)) p q e r.keys_hold;
      values_hold =
          splice-Holds c.layout.base.num_layers c.layout.base.capacity_tokens _ _ c.values vs i j
            value r.live.covered (omega (arith, size, r.live.values_full)) p q f r.values_hold;
    },
  )
    where
      p : i < c.layout.base.num_layers
      p = ground arith

      q : j < c.layout.base.capacity_tokens
      q = ground arith

      e : length key ≡ width c.layout.base
      e = ground arith

      f : length value ≡ width c.layout.base
      f = ground arith

      size : r.total ≡ c.layout.base.num_layers * cols c r.total r.live * width c.layout.base
      size = tensor_size c r.total r.live

  pub keys_read :
      (c : PagedKvCache F) (ks vs : Contents F) (i n : ℕ) (out : List F)
      → Represents c ks vs
      → i < c.layout.base.num_layers
      → n ≤ c.layout.base.capacity_tokens
      → length out ≡ n * width c.layout.base
      → read_layer_keys c i n out ≡ (gather (ks i) n 0, ok tt)
  unfolding read_layer_keys ensure_active
  keys_read c ks vs i n out r p q e = ground (
    arith,
    r.live.active,
    read_rows c r.total r.live c.keys ks i n out r.live.keys_full r.keys_hold p q e,
  )

  pub values_read :
      (c : PagedKvCache F) (ks vs : Contents F) (i n : ℕ) (out : List F)
      → Represents c ks vs
      → i < c.layout.base.num_layers
      → n ≤ c.layout.base.capacity_tokens
      → length out ≡ n * width c.layout.base
      → read_layer_values c i n out ≡ (gather (vs i) n 0, ok tt)
  unfolding read_layer_values ensure_active
  values_read c ks vs i n out r p q e = ground (
    arith,
    r.live.active,
    read_rows c r.total r.live c.values vs i n out r.live.values_full r.values_hold p q e,
  )

  -- `n` zeros in each tensor.
  abbrev pub fresh : F → PagedKvCacheLayout → List ℕ → ℕ → PagedKvCache F
  fresh z l table n = record {
    layout = l;
    page_table = table;
    keys = replicate n z;
    values = replicate n z;
    len_tokens = 0;
    released = false;
  }

  -- What a successful construction has checked.
  pub record Made (z : F) (l : PagedKvCacheLayout) (table : List ℕ) (c : PagedKvCache F)
      : Type 0 where
    pub total : ℕ
    pub valid : validate_page_table l table ≡ ok tt
    pub width_ok : values_per_position l.base ≡ ok (width l.base)
    pub page_ok : values_per_page_tensor l ≡ ok (l.page_size_tokens * width l.base)
    pub fits :
        checked_product
          (l.base.num_layers ∷ length table ∷ (l.page_size_tokens * width l.base) ∷ [])
        ≡ ok total
    pub result : c ≡ fresh z l table total

  filled-eq-ok : (z : F) (n : ℕ) (xs : List F) → filled z n ≡ ok xs → xs ≡ replicate n z
  unfolding filled
  filled-eq-ok z n xs h = ground arith

  fresh_of :
      (l : PagedKvCacheLayout) (table : List ℕ) (z : F) (n : ℕ) (ks vs : List F)
      (c : PagedKvCache F)
      → ks ≡ replicate n z
      → vs ≡ replicate n z
      → ok (record (fresh z l table n) { keys = ks; values = vs }) ≡ ok c
      → c ≡ fresh z l table n
  fresh_of l table z n ks vs c e f h = ground arith

  pub new-Made :
      (z : F) (l : PagedKvCacheLayout) (table : List ℕ) (c : PagedKvCache F)
      → new_with_page_table z l table ≡ ok c
      → Made z l table c
  unfolding new_with_page_table
  new-Made z l table c h =
      let (_, _, h1) = >>=-eq-ok (validate_cpu_f32_layout l.base) _ h in
      let (_, valid, h2) = >>=-eq-ok (validate_page_table l table) _ h1 in
      let (v, page, h3) = >>=-eq-ok (values_per_page_tensor l) _ h2 in
      let (n, total, h4) =
        >>=-eq-ok (checked_product (l.base.num_layers ∷ length table ∷ v ∷ [])) _ h3 in
      let (ks, keys, h5) = >>=-eq-ok (filled z n) _ h4 in
      let (vs, values, h6) = >>=-eq-ok (filled z n) _ h5 in
      let sizes = page_width l v page in
      record {
        total = n;
        valid = valid;
        width_ok = sizes.1;
        page_ok = page ∙ ap ok sizes.0;
        fits = rw (← sizes.0) total;
        result =
            fresh_of l table z n ks vs c (filled-eq-ok z n ks keys) (filled-eq-ok z n vs values) h6;
      }

  fresh-Represents :
      (z : F) (l : PagedKvCacheLayout) (table : List ℕ) (c : PagedKvCache F) (m : Made z l table c)
      → 0 < l.base.num_layers
      → 0 < l.base.capacity_tokens
      → 0 < l.page_size_tokens
      → Represents
          (fresh z l table m.total)
          (λ i j. replicate (width l.base) z)
          (λ i j. replicate (width l.base) z)
  fresh-Represents z l table c m p q s = record {
    total = m.total;
    live = live;
    keys_hold = zeros;
    values_hold = zeros;
  }
    where
      pages :
          (l.base.capacity_tokens ≤ length table * l.page_size_tokens)
          × (l.base.capacity_tokens < usize_range)
      pages = valid_table_covers l table s q m.valid

      live : IsLive m.total (fresh z l table m.total)
      live = record {
        active = refl;
        layers_pos = p;
        capacity_pos = q;
        capacity_usize = pages.1;
        page_pos = s;
        width_ok = m.width_ok;
        page_ok = m.page_ok;
        fits = m.fits;
        covered = pages.0;
        keys_full = length-replicate m.total z;
        values_full = length-replicate m.total z;
        len_le = omega arith;
      }

      zeros :
          Holds l.base.num_layers l.base.capacity_tokens
            (length table * l.page_size_tokens)
            (width l.base)
            (replicate m.total z)
            (λ i j. replicate (width l.base) z)
      zeros =
          replicate-Holds l.base.num_layers l.base.capacity_tokens
            (length table * l.page_size_tokens) (width l.base) m.total z pages.0
            (omega (arith, tensor_size (fresh z l table m.total) m.total live))

  -- A cache made from a layout with layers, capacity and a page size holds zeros everywhere.
  pub new-Represents :
      (z : F) (l : PagedKvCacheLayout) (table : List ℕ) (c : PagedKvCache F)
      → 0 < l.base.num_layers
      → 0 < l.base.capacity_tokens
      → 0 < l.page_size_tokens
      → new_with_page_table z l table ≡ ok c
      → (c.layout ≡ l)
        × Represents c (λ i j. replicate (width l.base) z) (λ i j. replicate (width l.base) z)
  new-Represents z l table c p q s h =
      let m = new-Made z l table c h in rw m.result (refl, fresh-Represents z l table c m p q s)

abbrev pub paged_store : (F : Type 0) → KvCacheStore F
paged_store F = record {
  Cache = PagedKvCache F;
  layout = λ c. c.layout.base;
  len_tokens = λ c. c.len_tokens;
  set_len_tokens = set_len_tokens;
  write_layer_kv = write_layer_kv;
  read_layer_keys = read_layer_keys;
  read_layer_values = read_layer_values;
  Represents = Represents;
  write_accepted = write_accepted;
  write_refused = λ c ks vs i j key value r h. write_out_of_range c r.total r.live i j key value h;
  keys_read = keys_read;
  values_read = values_read;
}
