-- ===== src/KvCache/Store.antt =====
-- crates/core/src/lib.rs, the trait `KvCacheStore`, with the contract that its implementations meet:
-- a cache represents the keys and the values at each layer and position.
pub mod Agreement
use ocelotl.Common.{ℕ, ◌*◌, ◌≤◌, ◌<◌, ◌≡◌, Bool, true, false, ◌&&◌, List, ltb, ◌==◌, length}
use ocelotl.Core.Errors.{Result, ok, is_err}
use ocelotl.Core.KvLayout.{KvCacheLayout}
use ocelotl.Core.KvLayout.Offsets.{width}
use ocelotl.KvCache.Storage.Rows.{gather}
use ocelotl.KvCache.Storage.Cells.{Contents, put}

-- A write that the contract accepts: the cell exists and the rows have the width of the layout.
abbrev pub writable : {F : Type 0} → KvCacheLayout → ℕ → ℕ → List F → List F → Bool
writable l i j key value =
    ltb i l.num_layers
    && ltb j l.capacity_tokens
    && length key == width l
    && length value == width l

pub record KvCacheStore (F : Type 0) : Type 1 where
  pub Cache : Type 0
  pub layout : Cache → KvCacheLayout
  pub len_tokens : Cache → ℕ
  pub set_len_tokens : Cache → ℕ → Result Cache
  pub write_layer_kv : Cache → ℕ → ℕ → List F → List F → Result Cache
  pub read_layer_keys : Cache → ℕ → ℕ → List F → List F × Result (Unit {0})
  pub read_layer_values : Cache → ℕ → ℕ → List F → List F × Result (Unit {0})
  pub Represents : Cache → Contents F → Contents F → Type 0
  pub write_accepted :
      (c : Cache) (ks vs : Contents F) (i j : ℕ) (key value : List F)
      → Represents c ks vs
      → writable (layout c) i j key value ≡ true
      → (c' : Cache) × (write_layer_kv c i j key value ≡ ok c')
        × (layout c' ≡ layout c)
        × Represents c' (put ks i j key) (put vs i j value)
  pub write_refused :
      (c : Cache) (ks vs : Contents F) (i j : ℕ) (key value : List F)
      → Represents c ks vs
      → writable (layout c) i j key value ≡ false
      → is_err (write_layer_kv c i j key value) ≡ true
  pub keys_read :
      (c : Cache) (ks vs : Contents F) (i n : ℕ) (out : List F)
      → Represents c ks vs
      → i < (layout c).num_layers
      → n ≤ (layout c).capacity_tokens
      → length out ≡ n * width (layout c)
      → read_layer_keys c i n out ≡ (gather (ks i) n 0, ok tt)
  pub values_read :
      (c : Cache) (ks vs : Contents F) (i n : ℕ) (out : List F)
      → Represents c ks vs
      → i < (layout c).num_layers
      → n ≤ (layout c).capacity_tokens
      → length out ≡ n * width (layout c)
      → read_layer_values c i n out ≡ (gather (vs i) n 0, ok tt)
