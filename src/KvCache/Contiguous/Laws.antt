-- ===== src/KvCache/Contiguous/Laws.antt =====
-- crates/runtime/src/kv_cache.rs, `ContiguousKvCache`: the flat tensors by layer and position.
use ocelotl.Common.{ℕ, ◌*◌, ◌≤◌, ◌<◌, ◌≡◌, true, false, List, [], arith, length}
use ocelotl.Common.Slices.{splice}
use ocelotl.Core.Errors.{ok, is_err}
use ocelotl.Core.KvLayout.{
  KvCacheLayout, values_per_position, values_per_all_key_tensors, layer_position_offset,
}
use ocelotl.Core.KvLayout.Offsets.{width, window, layer_position_offset_in_bounds, checked_rows}
use ocelotl.KvCache.Storage.{copy_rows}
use ocelotl.KvCache.Storage.Rows.{gather, gather_ext, copy_in_range, copy_rows_lem}
use ocelotl.KvCache.Storage.Cells.{Contents, cell, Holds}
use ocelotl.KvCache.Contiguous.{
  ContiguousKvCache, ensure_active, write_layer_kv, copy_contiguous_layer,
}
use ocelotl.KvCache.Store.{writable}

-- A cache in use, whose tensors have the `n` values of its layout.
pub record IsLive {F : Type 0} (n : ℕ) (c : ContiguousKvCache F) : Type 0 where
  pub active : c.released ≡ false
  pub layers_pos : 0 < c.layout.num_layers
  pub capacity_pos : 0 < c.layout.capacity_tokens
  pub fits : values_per_all_key_tensors c.layout ≡ ok n
  pub keys_full : length c.keys ≡ n
  pub values_full : length c.values ≡ n
  pub len_le : c.len_tokens ≤ c.layout.capacity_tokens

pub record Represents {F : Type 0} (c : ContiguousKvCache F) (ks vs : Contents F) : Type 0 where
  pub total : ℕ
  pub live : IsLive total c
  pub keys_hold :
      Holds c.layout.num_layers c.layout.capacity_tokens c.layout.capacity_tokens
        (width c.layout)
        c.keys
        ks
  pub values_hold :
      Holds c.layout.num_layers c.layout.capacity_tokens c.layout.capacity_tokens
        (width c.layout)
        c.values
        vs

module _ {F : Type 0} (c : ContiguousKvCache F) (n : ℕ) (live : IsLive n c) where
  abbrev l : KvCacheLayout
  l = c.layout

  width_here : values_per_position l ≡ ok (width l)
  width_here =
      (layer_position_offset_in_bounds l n 0 0 live.fits live.layers_pos live.capacity_pos).0

  pub write_in_range :
      (i j : ℕ) (key value : List F)
      → i < l.num_layers
      → j < l.capacity_tokens
      → length key ≡ width l
      → length value ≡ width l
      → write_layer_kv c i j key value
        ≡ ok (record c {
          keys = splice c.keys (window l i j) key;
          values = splice c.values (window l i j) value;
        })
  unfolding write_layer_kv ensure_active
  write_in_range i j key value p q e f =
      let (_, at, fit) = layer_position_offset_in_bounds l n i j live.fits p q in
      ground (
        arith,
        width_here,
        live.active,
        at,
        fit,
        live.keys_full,
        live.values_full,
        copy_in_range c.keys (window l i j) key,
        copy_in_range c.values (window l i j) value,
      )

  pub write_out_of_range :
      (i j : ℕ) (key value : List F)
      → writable l i j key value ≡ false
      → is_err (write_layer_kv c i j key value) ≡ true
  unfolding write_layer_kv ensure_active layer_position_offset
  write_out_of_range i j key value h = ground (arith, width_here, live.active)

  copied_rows :
      (src : List F) (i m : ℕ) (out : List F)
      → length src ≡ n
      → i < l.num_layers
      → m ≤ l.capacity_tokens
      → length out ≡ m * width l
      → copy_rows (layer_position_offset l i) src (width l) m 0 out
        ≡ (gather (λ j. cell l.capacity_tokens (width l) src i j) m 0, ok tt)
  unfolding cell
  copied_rows src i m out s p q e =
      copy_rows_lem (layer_position_offset l i) src (width l) (λ j. window l i j) m 0 [] out
        (λ j h.
          let (_, at, fit) = layer_position_offset_in_bounds l n i j live.fits p (omega arith) in
          (at, omega arith))
        (omega arith) e

  pub read_rows :
      (src : List F) (rows : Contents F) (i m : ℕ) (out : List F)
      → length src ≡ n
      → Holds l.num_layers l.capacity_tokens l.capacity_tokens (width l) src rows
      → i < l.num_layers
      → m ≤ l.capacity_tokens
      → length out ≡ m * width l
      → copy_contiguous_layer l src i m out ≡ (gather (rows i) m 0, ok tt)
  unfolding copy_contiguous_layer
  read_rows src rows i m out s holds p q e = ground (
    arith,
    width_here,
    checked_rows l n m live.fits live.layers_pos q,
    copied_rows src i m out s p q e,
    gather_ext (λ j. cell l.capacity_tokens (width l) src i j) (rows i) m 0
        (λ j h. holds i j p (omega arith)),
  )
