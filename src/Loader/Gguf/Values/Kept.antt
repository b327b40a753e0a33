-- ===== src/Loader/Gguf/Values/Kept.antt =====
-- What the texts and the metadata values that are read keep of the limits.
use ocelotl.Common.{
  ℕ, zero, suc, ◌*◌, ◌≤◌, ◌<◌, ◌≡◌, ap, subst, inl, inr, Bool, true, List, String, arith,
  Bool-cases, length, length-take_within,
}
use ocelotl.Core.Errors.{ok}
use ocelotl.Core.ArtifactLimits.{ArtifactLimits}
use ocelotl.Loader.Gguf.Types.{GgufMetadataType, GgufMetadataValue, type_from_raw}
use ocelotl.Loader.Gguf.Reader.{
  GgufReader, ◌>>=◌, done, lift, read_exact_header_part, read_le, read_bool, collect, repeat,
}
use ocelotl.Loader.Gguf.Reader.Moves.{read_exact_ok}
use ocelotl.Loader.Gguf.Reader.Takes.{Stays-Takes, bytes-Takes, le-Takes, bool-Takes, repeat-Takes}
use ocelotl.Loader.Gguf.Reader.Gives.{
  IsLater, Gives, Any, Takes-Gives, bind-Gives, done-Gives, lift-Gives, collect-Gives,
}
use ocelotl.Loader.Gguf.Values.{
  try_reserve_exact, read_text, read_string, read_array_header, skip_metadata_value, is_bool,
  read_array, read_metadata_value,
}
use ocelotl.Loader.Gguf.Values.Least.{reserve-Stays, skip-Takes}

pub le-Gives : (q : GgufReader) (n : ℕ) → Gives q Any (read_le n)
le-Gives q n = Takes-Gives q Any n _ (le-Takes n) (λ r s a h e. tt)

header-Gives :
    (q : GgufReader) (left : ℕ)
    → Gives q (λ header. header.1 ≤ q.limits.max_array_elements) (read_array_header (suc left))
unfolding read_array_header
header-Gives q left = bind-Gives q Any _ (read_le 4) _ (le-Gives q 4) (λ raw _.
    bind-Gives q Any _ (λ r. lift (type_from_raw r.path "metadata array" raw) r) _
      (lift-Gives q Any (λ r. type_from_raw r.path "metadata array" raw) (λ r a h e. tt))
      (λ element_type _. bind-Gives q Any _ (read_le 8) _ (le-Gives q 8) (λ len _ r s header h e.
        let limit : r.limits.max_array_elements ≡ q.limits.max_array_elements =
          ap (λ (l : ArtifactLimits). l.max_array_elements) h.limits in
        let few : header.1 ≤ r.limits.max_array_elements = ground arith in
        let same : r ≡ s = ground arith in (omega (arith, few, limit), subst (IsLater q) same h))))

module _ (is_utf8 : List ℕ → Bool) where
  -- A text of `most` bytes at most, and no more than any text may have.
  pub record IsText (most : ℕ) (limits : ArtifactLimits) (text : List ℕ) : Type 0 where
    pub bounded : length text ≤ most
    pub short : length text ≤ limits.max_metadata_string_bytes
    pub utf8 : is_utf8 text ≡ true

  -- A metadata value: texts and arrays have limits.
  abbrev pub IsKept : ArtifactLimits → GgufMetadataValue → Type 0
  IsKept limits (GgufMetadataValue.string text) =
      IsText limits.max_metadata_string_bytes limits text
  IsKept limits (GgufMetadataValue.bool_array values) =
      (0 < limits.max_array_depth) × (length values ≤ limits.max_array_elements)
  IsKept limits (GgufMetadataValue.array element_type len) =
      (0 < limits.max_array_depth) × (len ≤ limits.max_array_elements)
  IsKept limits _ = Unit {0}

  module _ (can_reserve : String → ℕ → Bool) (q : GgufReader) where
    pub reserve-Gives :
        (field : String) (n : ℕ) → Gives q Any (try_reserve_exact is_utf8 can_reserve field n)
    reserve-Gives field n =
        Takes-Gives q _ 0 _ (Stays-Takes _ (reserve-Stays is_utf8 can_reserve field n))
          (λ r s a h e. tt)

    text-Gives :
        (field : String) (len : ℕ)
        → Gives q
            (λ text. (length text ≡ len) × (is_utf8 text ≡ true))
            (read_text is_utf8 can_reserve field len)
    unfolding read_text
    text-Gives field len = bind-Gives q Any _ _ _ (reserve-Gives field len) (λ _ _.
        bind-Gives q (λ bytes. length bytes ≡ len) _ (read_exact_header_part len) _
          (Takes-Gives q _ len _ (bytes-Takes len) (λ r s bytes h e.
            let (moved, taken) = read_exact_ok len r s bytes e in
            omega (arith, ap length taken, length-take_within len r.file moved.inside)))
          (λ bytes size r s text h e.
            let valid : is_utf8 bytes ≡ true = ground arith in
            let same : r ≡ s = ground arith in
            let same_text : bytes ≡ text = ground arith in
            (
              subst (λ b. (length b ≡ len) × (is_utf8 b ≡ true)) same_text (size, valid),
              subst (IsLater q) same h,
            )))

    string-Gives :
        (field : String) (most : ℕ)
        → Gives q (IsText most q.limits) (read_string is_utf8 can_reserve field most)
    unfolding read_string
    string-Gives field most = bind-Gives q Any _ (read_le 8) _ (le-Gives q 8) (λ len _ r s text h e.
        let limit : r.limits.max_metadata_string_bytes ≡ q.limits.max_metadata_string_bytes =
          ap (λ (l : ArtifactLimits). l.max_metadata_string_bytes) h.limits in
        let small : (len ≤ most) × (len ≤ r.limits.max_metadata_string_bytes) = ground arith in
        let read : read_text is_utf8 can_reserve field len r ≡ ok (text, s) = ground arith in
        let ((size, valid), later) = text-Gives field len r s text h read in
        (
          record {
            bounded = omega (arith, size, small.0);
            short = omega (arith, size, small.1, limit);
            utf8 = valid;
          },
          later,
        ))

    -- With a limit that the reader has.
    pub limited-Gives :
        (field : String) (most : ArtifactLimits → ℕ)
        → Gives q
            (IsText (most q.limits) q.limits)
            (λ r. read_string is_utf8 can_reserve field (most r.limits) r)
    limited-Gives field most r s text h e =
        let (good, later) = string-Gives field (most r.limits) r s text h e in
        (subst (λ n. IsText n q.limits text) (ap most h.limits) good, later)

    array-Gives :
        (left : ℕ) (t : GgufMetadataType) (len : ℕ)
        → 0 < q.limits.max_array_depth
        → len ≤ q.limits.max_array_elements
        → Gives q (IsKept q.limits) (read_array is_utf8 can_reserve left t len)
    unfolding read_array
    array-Gives left t len deep few = elim (Bool-cases (is_bool t)) [
      | inl e ↦ rw e (
          bind-Gives q Any _ _ _ (reserve-Gives "metadata bool array" len) (λ _ _.
            bind-Gives q _ _ (collect len read_bool) _
              (collect-Gives q Any len read_bool
                (Takes-Gives q Any 1 _ bool-Takes (λ r s a h e. tt)))
              (λ values size.
                done-Gives q (IsKept q.limits) (GgufMetadataValue.bool_array values)
                  (deep, omega (arith, size.0, few)))))
      | inr e ↦ rw e (
          bind-Gives q Any _ (repeat len (skip_metadata_value left t)) _
            (Takes-Gives q Any (len * 1) _ (repeat-Takes len 1 _ (skip-Takes left t))
              (λ r s a h e. tt))
            (λ _ _. done-Gives q (IsKept q.limits) (GgufMetadataValue.array t len) (deep, few)))
    ]

    number-Gives :
        (n : ℕ) (c : ℕ → GgufMetadataValue)
        → ((v : ℕ) → IsKept q.limits (c v))
        → Gives q (IsKept q.limits) (read_le n >>= λ v. done (c v))
    number-Gives n c kept =
        bind-Gives q Any _ (read_le n) _ (le-Gives q n)
          (λ v _. done-Gives q (IsKept q.limits) (c v) (kept v))

    pub value-Gives :
        (left : ℕ) (t : GgufMetadataType)
        → left ≤ q.limits.max_array_depth
        → Gives q (IsKept q.limits) (read_metadata_value is_utf8 can_reserve left t)
    unfolding read_metadata_value
    value-Gives left GgufMetadataType.u8 d = number-Gives 1 GgufMetadataValue.u8 (λ v. tt)
    value-Gives left GgufMetadataType.i8 d = number-Gives 1 GgufMetadataValue.i8 (λ v. tt)
    value-Gives left GgufMetadataType.u16 d = number-Gives 2 GgufMetadataValue.u16 (λ v. tt)
    value-Gives left GgufMetadataType.i16 d = number-Gives 2 GgufMetadataValue.i16 (λ v. tt)
    value-Gives left GgufMetadataType.u32 d = number-Gives 4 GgufMetadataValue.u32 (λ v. tt)
    value-Gives left GgufMetadataType.i32 d = number-Gives 4 GgufMetadataValue.i32 (λ v. tt)
    value-Gives left GgufMetadataType.f32 d = number-Gives 4 GgufMetadataValue.f32 (λ v. tt)
    value-Gives left GgufMetadataType.u64 d = number-Gives 8 GgufMetadataValue.u64 (λ v. tt)
    value-Gives left GgufMetadataType.i64 d = number-Gives 8 GgufMetadataValue.i64 (λ v. tt)
    value-Gives left GgufMetadataType.f64 d = number-Gives 8 GgufMetadataValue.f64 (λ v. tt)
    value-Gives left GgufMetadataType.bool d =
        bind-Gives q Any _ read_bool _ (Takes-Gives q Any 1 _ bool-Takes (λ r s a h e. tt))
          (λ b _. done-Gives q (IsKept q.limits) (GgufMetadataValue.bool b) tt)
    value-Gives left GgufMetadataType.string d =
        bind-Gives q _ _ _ _ (limited-Gives "metadata string" (λ l. l.max_metadata_string_bytes))
          (λ text good. done-Gives q (IsKept q.limits) (GgufMetadataValue.string text) good)
    value-Gives zero GgufMetadataType.array d = λ r s a h e. absurd (cc)
    value-Gives (suc left) GgufMetadataType.array d =
        bind-Gives q _ _ _ _ (header-Gives q left)
          (λ header few. array-Gives left (header.0) (header.1) (omega arith) few)
