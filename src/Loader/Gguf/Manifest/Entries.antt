-- ===== src/Loader/Gguf/Manifest/Entries.antt =====
-- What an accepted manifest says of the metadata.
use ocelotl.Common.{ℕ, ◌≡◌, ap, Bool, List, String, arith, length, All}
use ocelotl.Core.ArtifactLimits.{ArtifactLimits}
use ocelotl.Loader.Gguf.Types.{GgufMetadataEntry, type_from_raw}
use ocelotl.Loader.Gguf.Reader.{GgufReader, lift, read_le}
use ocelotl.Loader.Gguf.Reader.Gives.{Gives, Any, bind-Gives, done-Gives, lift-Gives, collect-Gives}
use ocelotl.Loader.Gguf.Values.{read_metadata_value}
use ocelotl.Loader.Gguf.Values.Kept.{
  IsText, IsKept, le-Gives, reserve-Gives, limited-Gives, value-Gives,
}
use ocelotl.Loader.Gguf.Inspect.{read_entry, read_metadata}

-- A metadata entry.
pub record IsEntry (is_utf8 : List ℕ → Bool) (limits : ArtifactLimits) (e : GgufMetadataEntry)
    : Type 0 where
  pub key : IsText is_utf8 limits.max_key_bytes limits e.key
  pub value : IsKept is_utf8 limits e.value

module _ (is_utf8 : List ℕ → Bool) (can_reserve : String → ℕ → Bool) (q : GgufReader) where
  depth-Gives :
      (t : _)
      → Gives q
          (IsKept is_utf8 q.limits)
          (λ r. read_metadata_value is_utf8 can_reserve r.limits.max_array_depth t r)
  depth-Gives t r s v h e =
      let depth : r.limits.max_array_depth ≡ q.limits.max_array_depth =
        ap (λ (l : ArtifactLimits). l.max_array_depth) h.limits in
      value-Gives is_utf8 can_reserve q r.limits.max_array_depth t (omega arith) r s v h e

  read_entry-IsEntry : Gives q (IsEntry is_utf8 q.limits) (read_entry is_utf8 can_reserve)
  unfolding read_entry
  read_entry-IsEntry =
      bind-Gives q _ _ _ _
        (limited-Gives is_utf8 can_reserve q "metadata key" (λ l. l.max_key_bytes))
        (λ key short. bind-Gives q Any _ (read_le 4) _ (le-Gives q 4) (λ raw _.
          bind-Gives q Any _ (λ r. lift (type_from_raw r.path "{key}" raw) r) _
            (lift-Gives q Any (λ r. type_from_raw r.path "{key}" raw) (λ r a h e. tt))
            (λ t _. bind-Gives q _ _ _ _ (depth-Gives t) (λ value kept.
              done-Gives q (IsEntry is_utf8 q.limits) (record { key = key; value = value })
                (record { key = short; value = kept })))))

  pub metadata-Gives :
      (m : ℕ)
      → Gives q
          (λ entries. (length entries ≡ m) × All (IsEntry is_utf8 q.limits) entries)
          (read_metadata is_utf8 can_reserve m)
  unfolding read_metadata
  metadata-Gives m =
      bind-Gives q Any _ _ _ (reserve-Gives is_utf8 can_reserve q "metadata_kv_count" m)
        (λ _ _. collect-Gives q _ m _ read_entry-IsEntry)
