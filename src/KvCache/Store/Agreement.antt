-- ===== src/KvCache/Store/Agreement.antt =====
-- Clients of `KvCacheStore`: runs of writes, and what they leave in a store.
use mathlib.Core.Bool.{false≢true}
use ocelotl.Common.{
  ℕ, ◌*◌, ◌≤◌, ◌<◌, ◌≡◌, ◌&&◌, refl, ◌∙◌, inl, inr, Bool, true, false, List, [], ◌∷◌, arith, length,
  Bool-cases,
}
use ocelotl.Core.Errors.{Result, ok, err, panic, ◌>>=◌, is_err}
use ocelotl.Core.KvLayout.{KvCacheLayout}
use ocelotl.Core.KvLayout.Offsets.{width}
use ocelotl.KvCache.Storage.Rows.{gather}
use ocelotl.KvCache.Storage.Cells.{Contents, put}
use ocelotl.KvCache.Store.{KvCacheStore, writable}

pub record Write (F : Type 0) : Type 0 where
  pub layer : ℕ
  pub position : ℕ
  pub key : List F
  pub value : List F

is_err_bind :
    {A B : Type 0} (m : Result A) (f : A → Result B) → is_err m ≡ true → is_err (m >>= f) ≡ true
is_err_bind (ok a) f h = absurd (false≢true h)
is_err_bind (err e) f h = refl
is_err_bind panic f h = h

module _ {F : Type 0} where
  -- A run of writes that stops at the first that is refused.
  unfoldable pub write_all : (s : KvCacheStore F) → List (Write F) → s.Cache → Result s.Cache
  write_all s [] c = ok c
  write_all s (w ∷ ws) c = do
    c' ← s.write_layer_kv c w.layer w.position w.key w.value
    write_all s ws c'

  -- The contents after a run of writes, and whether all of them are accepted.
  abbrev pub keys_after : List (Write F) → Contents F → Contents F
  keys_after [] ks = ks
  keys_after (w ∷ ws) ks = keys_after ws (put ks w.layer w.position w.key)

  abbrev pub values_after : List (Write F) → Contents F → Contents F
  values_after [] vs = vs
  values_after (w ∷ ws) vs = values_after ws (put vs w.layer w.position w.value)

  abbrev pub all_writable : KvCacheLayout → List (Write F) → Bool
  all_writable l [] = true
  all_writable l (w ∷ ws) = writable l w.layer w.position w.key w.value && all_writable l ws

  -- A run of accepted writes succeeds and leaves what was written last.
  pub write_all_accepted :
      (s : KvCacheStore F) (ws : List (Write F)) (c : s.Cache) (ks vs : Contents F)
      (l : KvCacheLayout)
      → s.layout c ≡ l
      → s.Represents c ks vs
      → all_writable l ws ≡ true
      → (c' : s.Cache) × (write_all s ws c ≡ ok c')
        × (s.layout c' ≡ l)
        × s.Represents c' (keys_after ws ks) (values_after ws vs)
  unfolding write_all
  write_all_accepted s [] c ks vs l e r h = (c, refl, e, r)
  write_all_accepted s (w ∷ ws) c ks vs l e r h =
      elim (Bool-cases (writable l w.layer w.position w.key w.value)) [
        | inl fits ↦
            let (d, done, same, held) =
              s.write_accepted c ks vs w.layer w.position w.key w.value r (rw e fits) in
            let (d', rest, same', held') =
              write_all_accepted s ws d (put ks w.layer w.position w.key)
                (put vs w.layer w.position w.value) l (same ∙ e) held (rw fits at h) in
            (d', rw done rest, same', held')
        | inr not_fits ↦ absurd (false≢true (rw not_fits at h))
      ]

  -- A run with a write that is not accepted fails.
  pub write_all_refused :
      (s : KvCacheStore F) (ws : List (Write F)) (c : s.Cache) (ks vs : Contents F)
      (l : KvCacheLayout)
      → s.layout c ≡ l
      → s.Represents c ks vs
      → all_writable l ws ≡ false
      → is_err (write_all s ws c) ≡ true
  unfolding write_all
  write_all_refused s [] c ks vs l e r h = absurd (ground arith)
  write_all_refused s (w ∷ ws) c ks vs l e r h =
      elim (Bool-cases (writable l w.layer w.position w.key w.value)) [
        | inl fits ↦
            let (d, done, same, held) =
              s.write_accepted c ks vs w.layer w.position w.key w.value r (rw e fits) in
            rw done (
              write_all_refused s ws d (put ks w.layer w.position w.key)
                (put vs w.layer w.position w.value) l (same ∙ e) held (rw fits at h))
        | inr not_fits ↦
            is_err_bind (s.write_layer_kv c w.layer w.position w.key w.value) (write_all s ws)
              (s.write_refused c ks vs w.layer w.position w.key w.value r (rw e not_fits))
      ]

  -- After accepted writes a store returns, for every read in range, what was written last.
  pub reads_after :
      (s : KvCacheStore F) (ws : List (Write F)) (c : s.Cache) (ks vs : Contents F)
      (l : KvCacheLayout) (i n : ℕ) (out : List F)
      → s.layout c ≡ l
      → s.Represents c ks vs
      → all_writable l ws ≡ true
      → i < l.num_layers
      → n ≤ l.capacity_tokens
      → length out ≡ n * width l
      → (c' : s.Cache) × (write_all s ws c ≡ ok c')
        × (s.read_layer_keys c' i n out ≡ (gather (keys_after ws ks i) n 0, ok tt))
        × (s.read_layer_values c' i n out ≡ (gather (values_after ws vs i) n 0, ok tt))
  reads_after s ws c ks vs l i n out e r h p m g =
      let (c', done, same, held) = write_all_accepted s ws c ks vs l e r h in
      let p' : i < (s.layout c').num_layers = rw same p in
      let m' : n ≤ (s.layout c').capacity_tokens = rw same m in
      let g' : length out ≡ n * width (s.layout c') = rw same g in
      (
        c',
        done,
        s.keys_read c' _ _ i n out held p' m' g',
        s.values_read c' _ _ i n out held p' m' g',
      )
