-- ===== src/Loader/Gguf/Tokenizer/Skipped.antt =====
-- The readings of the tokenizer pass beside the skips of the values.
use ocelotl.Common.{
  ℕ, zero, suc, ◌≡◌, refl, sym, ◌∙◌, subst, Bool, true, Option, List, String, arith,
}
use ocelotl.Core.Errors.{Result, ok}
use ocelotl.Loader.Gguf.Types.{GgufMetadataType, GgufMetadataValue}
use ocelotl.Loader.Gguf.Reader.{GgufReader, Reading, ◌>>◌, read_le, collect, repeat}
use ocelotl.Loader.Gguf.Reader.Moves.{IsPlaced, bind_ok, bind_step}
use ocelotl.Loader.Gguf.Values.{
  try_reserve_exact, read_array_header, skip_metadata_value, read_metadata_value,
}
use ocelotl.Loader.Gguf.Values.Least.{header-Takes, reserve-Stays, skip-Takes}
use ocelotl.Loader.Gguf.Reader.Takes.{lift-Stays}
use ocelotl.Loader.Gguf.Values.Skips.{
  SkippedBy, then-SkippedBy, before-SkippedBy, repeat-SkippedBy, le-SkippedBy, string-SkippedBy,
  value-SkippedBy, Takes-IsPlaced,
}
use ocelotl.Loader.Gguf.Tokenizer.{
  GgufTokenizerMetadata, TokenizerKey, same_type, expect_array_element_type, expect_metadata_string,
  expect_metadata_u32, expect_metadata_bool, read_metadata_array, read_metadata_string_array,
  read_metadata_f32_array, read_metadata_i32_array, read_expected, read_arm,
}

-- The skip of a value that is not in an array.
abbrev pub skip_top : GgufMetadataType → Reading (Unit {0})
skip_top t r = skip_metadata_value r.limits.max_array_depth t r

pub same_type_ok : (t u : GgufMetadataType) → same_type t u ≡ true → t ≡ u
unfolding same_type
same_type_ok GgufMetadataType.string GgufMetadataType.string h = refl
same_type_ok GgufMetadataType.f32 GgufMetadataType.f32 h = refl
same_type_ok GgufMetadataType.i32 GgufMetadataType.i32 h = refl
same_type_ok t u h = cc

-- An array whose header is read is skipped element by element.
pub skip_array :
    (n : ℕ) (hd : GgufMetadataType × ℕ) (r s t : GgufReader)
    → read_array_header n r ≡ ok (hd, s)
    → ((left : ℕ) → repeat (hd.1) (skip_metadata_value left (hd.0)) s ≡ ok (tt, t))
    → skip_metadata_value n GgufMetadataType.array r ≡ ok (tt, t)
unfolding skip_metadata_value read_array_header
skip_array zero hd r s t h k = absurd (cc)
skip_array (suc left) hd r s t h k =
    bind_step (read_array_header (suc left))
      (λ header. repeat (header.1) (skip_metadata_value left (header.0))) r s hd h
    ∙ k left

-- The header of an array of the expected type.
pub header_ok :
    (expected t : GgufMetadataType) (len : ℕ) (r s : GgufReader)
    → expect_array_element_type t expected r ≡ ok (len, s)
    → (t ≡ GgufMetadataType.array)
      × (read_array_header r.limits.max_array_depth r ≡ ok ((expected, len), s))
unfolding expect_array_element_type
header_ok expected GgufMetadataType.array len r s h =
    let (hd, r2, opened, tested) =
      bind_ok (λ r. read_array_header r.limits.max_array_depth r) _ r s h in
    let equal : same_type (hd.0) expected ≡ true = ground arith in
    let same : (hd.1 ≡ len) × (r2 ≡ s) = (ground arith, ground arith) in
    let kind : hd.0 ≡ expected = same_type_ok (hd.0) expected equal in (refl, opened ∙ (cc))
header_ok expected GgufMetadataType.u8 len r s h = absurd (cc)
header_ok expected GgufMetadataType.i8 len r s h = absurd (cc)
header_ok expected GgufMetadataType.u16 len r s h = absurd (cc)
header_ok expected GgufMetadataType.i16 len r s h = absurd (cc)
header_ok expected GgufMetadataType.u32 len r s h = absurd (cc)
header_ok expected GgufMetadataType.i32 len r s h = absurd (cc)
header_ok expected GgufMetadataType.f32 len r s h = absurd (cc)
header_ok expected GgufMetadataType.bool len r s h = absurd (cc)
header_ok expected GgufMetadataType.string len r s h = absurd (cc)
header_ok expected GgufMetadataType.u64 len r s h = absurd (cc)
header_ok expected GgufMetadataType.i64 len r s h = absurd (cc)
header_ok expected GgufMetadataType.f64 len r s h = absurd (cc)

module _ (is_utf8 : List ℕ → Bool) (can_reserve : String → ℕ → Bool) where
  pub metadata_array-SkippedBy :
      {A : Type 0} (expected : GgufMetadataType) (read : Reading A)
      → ((left : ℕ) → SkippedBy read (skip_metadata_value left expected))
      → (t : GgufMetadataType)
      → SkippedBy (read_metadata_array is_utf8 can_reserve expected read t) (skip_top t)
  unfolding read_metadata_array
  metadata_array-SkippedBy expected read like t r s values p h =
      let (len, r1, head, rest) = bind_ok (expect_array_element_type t expected) _ r s h in
      let (is_array, opened) = header_ok expected t len r r1 head in
      let there : IsPlaced r1 =
        Takes-IsPlaced 12 _ (header-Takes r.limits.max_array_depth) r r1 (expected, len) p opened in
      let each : (left : ℕ)
          → SkippedBy (try_reserve_exact is_utf8 can_reserve "{key}" len >> collect len read)
              (repeat len (skip_metadata_value left expected)) =
        λ left.
          before-SkippedBy _ _ _ (reserve-Stays is_utf8 can_reserve "{key}" len)
            (λ _. repeat-SkippedBy len read _ (like left)) in
      let skipped : skip_metadata_value r.limits.max_array_depth GgufMetadataType.array r
          ≡ ok (tt, s) =
        skip_array r.limits.max_array_depth (expected, len) r r1 s opened
          (λ left. (each left r1 s values there rest).0) in
      (
        subst (λ x. skip_top x r ≡ ok (tt, s)) (sym is_array) skipped,
        (each 0 r1 s values there rest).1,
      )

  pub string_array-SkippedBy :
      (t : GgufMetadataType)
      → SkippedBy (read_metadata_string_array is_utf8 can_reserve t) (skip_top t)
  unfolding read_metadata_string_array skip_metadata_value
  string_array-SkippedBy = metadata_array-SkippedBy GgufMetadataType.string _ (λ left r s a p h.
      string-SkippedBy is_utf8 can_reserve "{key}" "metadata string"
        r.limits.max_metadata_string_bytes r s a p h)

  pub f32_array-SkippedBy :
      (t : GgufMetadataType)
      → SkippedBy (read_metadata_f32_array is_utf8 can_reserve t) (skip_top t)
  unfolding read_metadata_f32_array skip_metadata_value
  f32_array-SkippedBy =
      metadata_array-SkippedBy GgufMetadataType.f32 (read_le 4) (λ left. le-SkippedBy 4)

  pub i32_array-SkippedBy :
      (t : GgufMetadataType)
      → SkippedBy (read_metadata_i32_array is_utf8 can_reserve t) (skip_top t)
  unfolding read_metadata_i32_array skip_metadata_value
  i32_array-SkippedBy =
      metadata_array-SkippedBy GgufMetadataType.i32 (read_le 4) (λ left. le-SkippedBy 4)

  pub expected-SkippedBy :
      {A : Type 0} (expect : Option String → GgufMetadataValue → Result A) (t : GgufMetadataType)
      → SkippedBy (read_expected is_utf8 can_reserve expect t) (skip_top t)
  unfolding read_expected
  expected-SkippedBy expect t =
      then-SkippedBy (λ r. read_metadata_value is_utf8 can_reserve r.limits.max_array_depth t r) _
        (skip_top t) (λ v r s b h. lift-Stays (expect r.path v) r s b h)
        (λ r s v p h. value-SkippedBy is_utf8 can_reserve r.limits.max_array_depth t r s v p h)

  pub skipped_value-SkippedBy : (t : GgufMetadataType) → SkippedBy (skip_top t) (skip_top t)
  skipped_value-SkippedBy t r s a p h = (
    h,
    Takes-IsPlaced 1 (skip_top t) (λ r s a p h. skip-Takes r.limits.max_array_depth t r s a p h) r s
        a p h,
  )

  pub arm-SkippedBy :
      (k : TokenizerKey) (t : GgufMetadataType) (m : GgufTokenizerMetadata)
      → SkippedBy (read_arm is_utf8 can_reserve k t m) (skip_top t)
  unfolding read_arm
  arm-SkippedBy TokenizerKey.tokens t m =
      then-SkippedBy _ _ (skip_top t) (λ v r s b h. cc) (string_array-SkippedBy t)
  arm-SkippedBy TokenizerKey.scores t m =
      then-SkippedBy _ _ (skip_top t) (λ v r s b h. cc) (f32_array-SkippedBy t)
  arm-SkippedBy TokenizerKey.token_type t m =
      then-SkippedBy _ _ (skip_top t) (λ v r s b h. cc) (i32_array-SkippedBy t)
  arm-SkippedBy TokenizerKey.merges t m =
      then-SkippedBy _ _ (skip_top t) (λ v r s b h. cc) (string_array-SkippedBy t)
  arm-SkippedBy TokenizerKey.model t m =
      then-SkippedBy _ _ (skip_top t) (λ v r s b h. cc)
        (expected-SkippedBy expect_metadata_string t)
  arm-SkippedBy TokenizerKey.chat_template t m =
      then-SkippedBy _ _ (skip_top t) (λ v r s b h. cc)
        (expected-SkippedBy expect_metadata_string t)
  arm-SkippedBy TokenizerKey.bos_token_id t m =
      then-SkippedBy _ _ (skip_top t) (λ v r s b h. cc) (expected-SkippedBy expect_metadata_u32 t)
  arm-SkippedBy TokenizerKey.eos_token_id t m =
      then-SkippedBy _ _ (skip_top t) (λ v r s b h. cc) (expected-SkippedBy expect_metadata_u32 t)
  arm-SkippedBy TokenizerKey.unknown_token_id t m =
      then-SkippedBy _ _ (skip_top t) (λ v r s b h. cc) (expected-SkippedBy expect_metadata_u32 t)
  arm-SkippedBy TokenizerKey.padding_token_id t m =
      then-SkippedBy _ _ (skip_top t) (λ v r s b h. cc) (expected-SkippedBy expect_metadata_u32 t)
  arm-SkippedBy TokenizerKey.mask_token_id t m =
      then-SkippedBy _ _ (skip_top t) (λ v r s b h. cc) (expected-SkippedBy expect_metadata_u32 t)
  arm-SkippedBy TokenizerKey.add_bos_token t m =
      then-SkippedBy _ _ (skip_top t) (λ v r s b h. cc) (expected-SkippedBy expect_metadata_bool t)
  arm-SkippedBy TokenizerKey.add_space_prefix t m =
      then-SkippedBy _ _ (skip_top t) (λ v r s b h. cc) (expected-SkippedBy expect_metadata_bool t)
  arm-SkippedBy TokenizerKey.other t m =
      then-SkippedBy _ _ (skip_top t) (λ v r s b h. cc) (skipped_value-SkippedBy t)
