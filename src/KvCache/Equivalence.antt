-- ===== src/KvCache/Equivalence.antt =====
-- crates/runtime/src/kv_cache.rs: the two caches behind `KvCacheStore`, side by side.
use ocelotl.Common.{ℕ, ◌*◌, ◌≤◌, ◌<◌, ◌≡◌, ap, sym, ◌∙◌, true, false, List, length, replicate}
use ocelotl.Core.Errors.{ok, is_err}
use ocelotl.Core.KvLayout.{KvCacheLayout}
use ocelotl.Core.KvLayout.Offsets.{width}
use ocelotl.Core.PagedLayout.{PagedKvCacheLayout}
use ocelotl.KvCache.Storage.Rows.{gather}
use ocelotl.KvCache.Storage.Cells.{Contents}
use ocelotl.KvCache.Contiguous
use ocelotl.KvCache.Contiguous.{ContiguousKvCache}
use ocelotl.KvCache.Contiguous.Contract.{contiguous_store}
use ocelotl.KvCache.Contiguous.Contract as ContiguousContract
use ocelotl.KvCache.Paged
use ocelotl.KvCache.Paged.{PagedKvCache}
use ocelotl.KvCache.Paged.Contract.{paged_store}
use ocelotl.KvCache.Paged.Contract as PagedContract
use ocelotl.KvCache.Store.Agreement.{
  Write, write_all, keys_after, values_after, all_writable, reads_after, write_all_refused,
}

-- The contents of a new cache.
abbrev pub zeros : {F : Type 0} → F → KvCacheLayout → Contents F
zeros z l i j = replicate (width l) z

-- A new contiguous and a new paged cache of one layout, with layers, capacity and a page size:
-- any run of writes whose cells exist and whose rows have the layout's width is accepted by both.
-- Both then return the same rows for every read in range, each row the one that was written last.
pub paged_matches_contiguous :
    {F : Type 0} (z : F) (p : PagedKvCacheLayout) (table : List ℕ) (c : ContiguousKvCache F)
    (d : PagedKvCache F) (ws : List (Write F)) (i n : ℕ) (out : List F)
    → 0 < p.base.num_layers
    → 0 < p.base.capacity_tokens
    → 0 < p.page_size_tokens
    → Contiguous.new z p.base ≡ ok c
    → Paged.new_with_page_table z p table ≡ ok d
    → all_writable p.base ws ≡ true
    → i < p.base.num_layers
    → n ≤ p.base.capacity_tokens
    → length out ≡ n * width p.base
    → (c' : ContiguousKvCache F) × (d' : PagedKvCache F) × (write_all (contiguous_store F) ws c
        ≡ ok c')
      × (write_all (paged_store F) ws d ≡ ok d')
      × (Contiguous.read_layer_keys c' i n out
          ≡ (gather (keys_after ws (zeros z p.base) i) n 0, ok tt))
      × (Paged.read_layer_keys d' i n out ≡ Contiguous.read_layer_keys c' i n out)
      × (Contiguous.read_layer_values c' i n out
          ≡ (gather (values_after ws (zeros z p.base) i) n 0, ok tt))
      × (Paged.read_layer_values d' i n out ≡ Contiguous.read_layer_values c' i n out)
paged_matches_contiguous {F} z p table c d ws i n out lp cp pp hc hd w il nl ol =
    let (ec, rc) = ContiguousContract.new-Represents z p.base c lp cp hc in
    let (ed, rd) = PagedContract.new-Represents z p table d lp cp pp hd in
    let (c', wc, kc, vc) =
      reads_after (contiguous_store F) ws c (zeros z p.base) (zeros z p.base) p.base i n out ec rc w
        il nl ol in
    let (d', wd, kd, vd) =
      reads_after (paged_store F) ws d (zeros z p.base) (zeros z p.base) p.base i n out
        (ap (λ q. q.base) ed) rd w il nl ol in
    (c', d', wc, wd, kc, kd ∙ sym kc, vc, vd ∙ sym vc)

-- A new contiguous and a new paged cache of one layout, with layers, capacity and a page size: a run
-- with a write whose cell does not exist or whose rows have another width than the layout's is refused
-- by both with an error, and does not panic.
pub paged_refuses_with_contiguous :
    {F : Type 0} (z : F) (p : PagedKvCacheLayout) (table : List ℕ) (c : ContiguousKvCache F)
    (d : PagedKvCache F) (ws : List (Write F))
    → 0 < p.base.num_layers
    → 0 < p.base.capacity_tokens
    → 0 < p.page_size_tokens
    → Contiguous.new z p.base ≡ ok c
    → Paged.new_with_page_table z p table ≡ ok d
    → all_writable p.base ws ≡ false
    → (is_err (write_all (contiguous_store F) ws c) ≡ true)
      × (is_err (write_all (paged_store F) ws d) ≡ true)
paged_refuses_with_contiguous {F} z p table c d ws lp cp pp hc hd w =
    let (ec, rc) = ContiguousContract.new-Represents z p.base c lp cp hc in
    let (ed, rd) = PagedContract.new-Represents z p table d lp cp pp hd in
    (
      write_all_refused (contiguous_store F) ws c (zeros z p.base) (zeros z p.base) p.base ec rc w,
      write_all_refused (paged_store F) ws d (zeros z p.base) (zeros z p.base) p.base
          (ap (λ q. q.base) ed) rd w,
    )
