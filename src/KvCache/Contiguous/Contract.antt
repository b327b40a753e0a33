-- ===== src/KvCache/Contiguous/Contract.antt =====
-- `ContiguousKvCache` as an implementation of `KvCacheStore`, and what a new cache represents.
use ocelotl.Common.{
  ℕ, ◌*◌, ◌≤◌, ◌<◌, ◌≡◌, refl, ◌∙◌, inl, inr, false, true, false, List, arith, length, replicate,
  length-replicate,
}
use ocelotl.Common.Slices.{length-splice}
use ocelotl.Core.Errors.{ok, Result-cases}
use ocelotl.Core.KvLayout.{KvCacheLayout, values_per_all_key_tensors}
use ocelotl.Core.KvLayout.Offsets.{width, window, tensor_size}
use ocelotl.KvCache.Storage.{validate_cpu_f32_layout, filled}
use ocelotl.KvCache.Storage.Rows.{gather}
use ocelotl.KvCache.Storage.Cells.{Contents, put, Holds, splice-Holds, replicate-Holds}
use ocelotl.KvCache.Contiguous.{
  ContiguousKvCache, new, ensure_active, set_len_tokens, write_layer_kv, read_layer_keys,
  read_layer_values,
}
use ocelotl.KvCache.Contiguous.Laws.{Represents, write_in_range, write_out_of_range, read_rows}
use ocelotl.KvCache.Store.{KvCacheStore, writable}

module _ {F : Type 0} where
  pub write_accepted :
      (c : ContiguousKvCache F) (ks vs : Contents F) (i j : ℕ) (key value : List F)
      → Represents c ks vs
      → writable c.layout i j key value ≡ true
      → (c' : ContiguousKvCache F) × (write_layer_kv c i j key value ≡ ok c')
        × (c'.layout ≡ c.layout)
        × Represents c' (put ks i j key) (put vs i j value)
  write_accepted c ks vs i j key value r h = (
    _,
    write_in_range c r.total r.live i j key value p q e f,
    refl,
    record {
      total = r.total;
      live = record {
        active = r.live.active;
        layers_pos = r.live.layers_pos;
        capacity_pos = r.live.capacity_pos;
        fits = r.live.fits;
        keys_full = length-splice c.keys (window c.layout i j) key ∙ r.live.keys_full;
        values_full = length-splice c.values (window c.layout i j) value ∙ r.live.values_full;
        len_le = r.live.len_le;
      };
      keys_hold =
          splice-Holds c.layout.num_layers c.layout.capacity_tokens _ _ c.keys ks i j key
            (omega arith) (omega (arith, size, r.live.keys_full)) p q e r.keys_hold;
      values_hold =
          splice-Holds c.layout.num_layers c.layout.capacity_tokens _ _ c.values vs i j value
            (omega arith) (omega (arith, size, r.live.values_full)) p q f r.values_hold;
    },
  )
    where
      p : i < c.layout.num_layers
      p = ground arith

      q : j < c.layout.capacity_tokens
      q = ground arith

      e : length key ≡ width c.layout
      e = ground arith

      f : length value ≡ width c.layout
      f = ground arith

      size : r.total ≡ c.layout.num_layers * c.layout.capacity_tokens * width c.layout
      size = tensor_size c.layout r.total r.live.fits

  pub keys_read :
      (c : ContiguousKvCache F) (ks vs : Contents F) (i n : ℕ) (out : List F)
      → Represents c ks vs
      → i < c.layout.num_layers
      → n ≤ c.layout.capacity_tokens
      → length out ≡ n * width c.layout
      → read_layer_keys c i n out ≡ (gather (ks i) n 0, ok tt)
  unfolding read_layer_keys ensure_active
  keys_read c ks vs i n out r p q e = ground (
    arith,
    r.live.active,
    read_rows c r.total r.live c.keys ks i n out r.live.keys_full r.keys_hold p q e,
  )

  pub values_read :
      (c : ContiguousKvCache F) (ks vs : Contents F) (i n : ℕ) (out : List F)
      → Represents c ks vs
      → i < c.layout.num_layers
      → n ≤ c.layout.capacity_tokens
      → length out ≡ n * width c.layout
      → read_layer_values c i n out ≡ (gather (vs i) n 0, ok tt)
  unfolding read_layer_values ensure_active
  values_read c ks vs i n out r p q e = ground (
    arith,
    r.live.active,
    read_rows c r.total r.live c.values vs i n out r.live.values_full r.values_hold p q e,
  )

  -- `n` zeros in each tensor.
  abbrev pub fresh : F → KvCacheLayout → ℕ → ContiguousKvCache F
  fresh z l n = record {
    layout = l;
    keys = replicate n z;
    values = replicate n z;
    len_tokens = 0;
    released = false;
  }

  pub new-eq-fresh :
      (z : F) (l : KvCacheLayout) (c : ContiguousKvCache F)
      → new z l ≡ ok c
      → (n : ℕ) × (values_per_all_key_tensors l ≡ ok n) × (c ≡ fresh z l n)
  unfolding new filled validate_cpu_f32_layout
  new-eq-fresh z l c h = elim (Result-cases (values_per_all_key_tensors l)) [
    | inl (n, e) ↦ (n, e, ground arith)
    | inr (inl (e, f)) ↦ absurd (ground arith)
    | inr (inr f) ↦ absurd (ground arith)
  ]

  fresh-Represents :
      (z : F) (l : KvCacheLayout) (n : ℕ)
      → 0 < l.num_layers
      → 0 < l.capacity_tokens
      → values_per_all_key_tensors l ≡ ok n
      → Represents (fresh z l n) (λ i j. replicate (width l) z) (λ i j. replicate (width l) z)
  fresh-Represents z l n p q e = record {
    total = n;
    live = record {
      active = refl;
      layers_pos = p;
      capacity_pos = q;
      fits = e;
      keys_full = length-replicate n z;
      values_full = length-replicate n z;
      len_le = omega arith;
    };
    keys_hold = zeros;
    values_hold = zeros;
  }
    where
      zeros :
          Holds l.num_layers l.capacity_tokens l.capacity_tokens
            (width l)
            (replicate n z)
            (λ i j. replicate (width l) z)
      zeros =
          replicate-Holds l.num_layers l.capacity_tokens l.capacity_tokens (width l) n z
            (omega arith) (omega (arith, tensor_size l n e))

  -- A cache made from a layout with layers and capacity holds zeros everywhere.
  pub new-Represents :
      (z : F) (l : KvCacheLayout) (c : ContiguousKvCache F)
      → 0 < l.num_layers
      → 0 < l.capacity_tokens
      → new z l ≡ ok c
      → (c.layout ≡ l) × Represents c (λ i j. replicate (width l) z) (λ i j. replicate (width l) z)
  new-Represents z l c p q h =
      let (n, e, f) = new-eq-fresh z l c h in rw f (refl, fresh-Represents z l n p q e)

abbrev pub contiguous_store : (F : Type 0) → KvCacheStore F
contiguous_store F = record {
  Cache = ContiguousKvCache F;
  layout = λ c. c.layout;
  len_tokens = λ c. c.len_tokens;
  set_len_tokens = set_len_tokens;
  write_layer_kv = write_layer_kv;
  read_layer_keys = read_layer_keys;
  read_layer_values = read_layer_values;
  Represents = Represents;
  write_accepted = write_accepted;
  write_refused = λ c ks vs i j key value r h. write_out_of_range c r.total r.live i j key value h;
  keys_read = keys_read;
  values_read = values_read;
}
