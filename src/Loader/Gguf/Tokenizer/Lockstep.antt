-- ===== src/Loader/Gguf/Tokenizer/Lockstep.antt =====
-- The two passes over the metadata of a GGUF file: the one for the manifest and the tokenizer's.
use ocelotl.Common.{ℕ, zero, suc, ◌≡◌, ◌∙◌, subst, Bool, List, String}
use ocelotl.Core.Errors.{ok}
use ocelotl.Loader.Gguf.Types.{GgufMetadataEntry, type_from_raw}
use ocelotl.Loader.Gguf.Reader.{GgufReader, Reading, ◌>>=◌, lift, read_le, collect}
use ocelotl.Loader.Gguf.Reader.Moves.{IsPlaced, Takes, bind_ok}
use ocelotl.Loader.Gguf.Values.{try_reserve_exact, read_string}
use ocelotl.Loader.Gguf.Values.Least.{string-Takes, reserve-Stays}
use ocelotl.Loader.Gguf.Reader.Takes.{Stays-Takes, le-Takes, lift-Stays}
use ocelotl.Loader.Gguf.Values.Skips.{SkippedBy, then-SkippedBy, value-SkippedBy, Takes-IsPlaced}
use ocelotl.Loader.Gguf.Inspect.{read_entry, read_metadata}
use ocelotl.Loader.Gguf.Tokenizer.{
  GgufTokenizerMetadata, key_arm, read_tokenizer_entry, read_tokenizer_entries,
}
use ocelotl.Loader.Gguf.Tokenizer.Skipped.{skip_top, arm-SkippedBy}

-- Two readings that stop at the same place where both succeed.
abbrev Together : {A B : Type 0} → Reading A → Reading B → Type 0
Together {A} {B} m m' =
    (r s s' : GgufReader) (a : A) (b : B)
    → IsPlaced r
    → m r ≡ ok (a, s)
    → m' r ≡ ok (b, s')
    → (s' ≡ s) × IsPlaced s

skips-Together :
    {A B : Type 0} (m : Reading A) (m' : Reading B) (skip : Reading (Unit {0}))
    → SkippedBy m skip
    → SkippedBy m' skip
    → Together m m'
skips-Together m m' skip like like' r s s' a b p h h' =
    let (skipped, placed) = like r s a p h in let (skipped', _) = like' r s' b p h' in (cc, placed)

same_start-Together :
    {A B C : Type 0} (k : ℕ) (m : Reading C) (next : C → Reading A) (next' : C → Reading B)
    → Takes k m
    → ((c : C) → Together (next c) (next' c))
    → Together (m >>= next) (m >>= next')
same_start-Together k m next next' takes both r s s' a b p h h' =
    let (c, t, first, rest) = bind_ok m next r s h in
    let (c', t', first', rest') = bind_ok m next' r s' h' in
    let same : c' ≡ c = cc in
    let same_state : t' ≡ t = cc in
    both c t s s' a b (Takes-IsPlaced k m takes r t c p first) rest (rw (same, same_state) at rest')

bind-Together :
    {A B C D : Type 0} (m : Reading A) (m' : Reading B) (next : A → Reading C)
    (next' : B → Reading D)
    → Together m m'
    → ((a : A) (b : B) → Together (next a) (next' b))
    → Together (m >>= next) (m' >>= next')
bind-Together m m' next next' start both r s s' c d p h h' =
    let (a, t, first, rest) = bind_ok m next r s h in
    let (b, t', first', rest') = bind_ok m' next' r s' h' in
    let (same, placed) = start r t t' a b p first first' in
    both a b t s s' c d placed rest (rw same at rest')

module _ (is_utf8 : List ℕ → Bool) (can_reserve : String → ℕ → Bool) where
  entry-Together :
      (m : GgufTokenizerMetadata)
      → Together (read_entry is_utf8 can_reserve) (read_tokenizer_entry is_utf8 can_reserve m)
  unfolding read_entry read_tokenizer_entry
  entry-Together m =
      same_start-Together 8
        (λ r. read_string is_utf8 can_reserve "metadata key" r.limits.max_key_bytes r) _ _
        (λ r s v p h.
          string-Takes is_utf8 can_reserve "metadata key" r.limits.max_key_bytes r s v p h)
        (λ key. same_start-Together 4 (read_le 4) _ _ (le-Takes 4) (λ raw.
          same_start-Together 0 (λ r. lift (type_from_raw r.path "{key}" raw) r) _ _
            (Stays-Takes _ (λ r s a h. lift-Stays (type_from_raw r.path "{key}" raw) r s a h))
            (λ t.
              skips-Together _ _ (skip_top t)
                (then-SkippedBy _ _ (skip_top t) (λ v r s b h. cc)
                  (λ r s v p h.
                    value-SkippedBy is_utf8 can_reserve r.limits.max_array_depth t r s v p h))
                (arm-SkippedBy is_utf8 can_reserve (key_arm key) t m))))

  entries-Together :
      (n : ℕ) (m : GgufTokenizerMetadata)
      → Together
          (collect n (read_entry is_utf8 can_reserve))
          (read_tokenizer_entries is_utf8 can_reserve n m)
  unfolding read_tokenizer_entries
  entries-Together zero m = λ r s s' a b p h h'.
      let same : s' ≡ s = cc in let start : r ≡ s = cc in (same, subst IsPlaced start p)
  entries-Together (suc n) m =
      bind-Together (read_entry is_utf8 can_reserve) (read_tokenizer_entry is_utf8 can_reserve m) _
        _ (entry-Together m)
        (λ e m' r s s' a b p h h'.
          let (es, t, first, last) = bind_ok (collect n (read_entry is_utf8 can_reserve)) _ r s h in
          let (same, placed) = entries-Together n m' r t s' es b p first h' in
          let stop : t ≡ s = cc in (same ∙ stop, subst IsPlaced stop placed))

  -- The two passes over the metadata keep step: with the cursor in the file and before the header
  -- limit, and for any number of entries, where the pass for the manifest and the tokenizer's pass both
  -- succeed from the same state of the reader, they end in the same state, though one reads the arrays
  -- that the other skips.
  pub metadata_lockstep :
      (n : ℕ) (m m' : GgufTokenizerMetadata) (entries : List GgufMetadataEntry)
      (r s s' : GgufReader)
      → IsPlaced r
      → read_metadata is_utf8 can_reserve n r ≡ ok (entries, s)
      → read_tokenizer_entries is_utf8 can_reserve n m r ≡ ok (m', s')
      → s' ≡ s
  unfolding read_metadata
  metadata_lockstep n m m' entries r s s' p h h' =
      let (_, t, reserved, rest) =
        bind_ok (try_reserve_exact is_utf8 can_reserve "metadata_kv_count" n) _ r s h in
      let still : t ≡ r = reserve-Stays is_utf8 can_reserve "metadata_kv_count" n r t _ reserved in
      (entries-Together n m r s s' entries m' p
        (subst (λ x. collect n (read_entry is_utf8 can_reserve) x ≡ ok (entries, s)) still rest)
        h').0
