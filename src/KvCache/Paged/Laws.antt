-- ===== src/KvCache/Paged/Laws.antt =====
-- crates/runtime/src/kv_cache.rs, `PagedKvCache`: the paged tensors by layer and position.
use ocelotl.Common.{ℕ, ◌*◌, ◌≤◌, ◌<◌, ◌≡◌, true, false, List, [], arith, length}
use ocelotl.Common.Slices.{splice}
use ocelotl.Core.Errors.{ok, is_err}
use ocelotl.Core.KvLayout.{KvCacheLayout}
use ocelotl.Core.KvLayout.Offsets.{width}
use ocelotl.Core.PagedLayout.{logical_page_and_offset}
use ocelotl.KvCache.Storage.{copy_rows}
use ocelotl.KvCache.Storage.Rows.{gather, gather_ext, copy_in_range, copy_rows_lem}
use ocelotl.KvCache.Storage.Cells.{Contents, cell, cell_start, Holds}
use ocelotl.KvCache.Paged.{
  PagedKvCache, ensure_active, storage_offset, write_layer_kv, copy_paged_layer,
}
use ocelotl.KvCache.Paged.Offsets.{IsLive, cols, storage_offset_lem, storage_in_range, checked_rows}
use ocelotl.KvCache.Store.{writable}

pub record Represents {F : Type 0} (c : PagedKvCache F) (ks vs : Contents F) : Type 0 where
  pub total : ℕ
  pub live : IsLive total c
  pub keys_hold :
      Holds c.layout.base.num_layers c.layout.base.capacity_tokens
        (cols c total live)
        (width c.layout.base)
        c.keys
        ks
  pub values_hold :
      Holds c.layout.base.num_layers c.layout.base.capacity_tokens
        (cols c total live)
        (width c.layout.base)
        c.values
        vs

module _ {F : Type 0} (c : PagedKvCache F) (n : ℕ) (live : IsLive n c) where
  abbrev l : KvCacheLayout
  l = c.layout.base

  abbrev pub start : ℕ → ℕ → ℕ
  start i j = cell_start (cols c n live) (width l) i j

  pub write_in_range :
      (i j : ℕ) (key value : List F)
      → i < l.num_layers
      → j < l.capacity_tokens
      → length key ≡ width l
      → length value ≡ width l
      → write_layer_kv c i j key value
        ≡ ok (record c {
          keys = splice c.keys (start i j) key;
          values = splice c.values (start i j) value;
        })
  unfolding write_layer_kv ensure_active
  write_in_range i j key value p q e f = ground (
    arith,
    live.width_ok,
    live.active,
    storage_offset_lem c n live i j p q,
    storage_in_range c n live i j p q,
    live.keys_full,
    live.values_full,
    copy_in_range c.keys (start i j) key,
    copy_in_range c.values (start i j) value,
  )

  pub write_out_of_range :
      (i j : ℕ) (key value : List F)
      → writable l i j key value ≡ false
      → is_err (write_layer_kv c i j key value) ≡ true
  unfolding write_layer_kv ensure_active storage_offset logical_page_and_offset
  write_out_of_range i j key value h = ground (arith, live.width_ok, live.active, live.page_pos)

  copied_rows :
      (src : List F) (i m : ℕ) (out : List F)
      → length src ≡ n
      → i < l.num_layers
      → m ≤ l.capacity_tokens
      → length out ≡ m * width l
      → copy_rows (storage_offset c i) src (width l) m 0 out
        ≡ (gather (λ j. cell (cols c n live) (width l) src i j) m 0, ok tt)
  unfolding cell
  copied_rows src i m out s p q e =
      copy_rows_lem (storage_offset c i) src (width l) (λ j. start i j) m 0 [] out
        (λ j h. (
          storage_offset_lem c n live i j p (omega arith),
          omega (arith, storage_in_range c n live i j p (omega arith)),
        ))
        (omega arith) e

  pub read_rows :
      (src : List F) (rows : Contents F) (i m : ℕ) (out : List F)
      → length src ≡ n
      → Holds l.num_layers l.capacity_tokens (cols c n live) (width l) src rows
      → i < l.num_layers
      → m ≤ l.capacity_tokens
      → length out ≡ m * width l
      → copy_paged_layer c src i m out ≡ (gather (rows i) m 0, ok tt)
  unfolding copy_paged_layer
  read_rows src rows i m out s holds p q e = ground (
    arith,
    live.width_ok,
    checked_rows c n live m q,
    copied_rows src i m out s p q e,
    gather_ext (λ j. cell (cols c n live) (width l) src i j) (rows i) m 0
        (λ j h. holds i j p (omega arith)),
  )
