-- ===== src/Loader/Gguf/Values/Skips.antt =====
-- Reading a metadata value beside skipping it.
use ocelotl.Common.{
  ℕ, zero, suc, ◌*◌, ◌≡◌, sym, ap, ◌∙◌, subst, inl, inr, Bool, ◌||◌, List, String, ltb,
  if◌then◌else◌, arith, Bool-cases,
}
use ocelotl.Core.Errors.{Result, ok}
use ocelotl.Loader.Gguf.Types.{GgufMetadataType, GgufMetadataValue}
use ocelotl.Loader.Gguf.Reader.{
  GgufReader, Reading, ◌>>=◌, ◌>>◌, done, read_exact_header_part, read_le, from_le_bytes, read_bool,
  skip_bytes, collect, repeat,
}
use ocelotl.Loader.Gguf.Reader.Moves.{
  IsPlaced, Moved-IsPlaced, bind_ok, read_exact_ok, skip_bytes_ok, bind_step,
}
use ocelotl.Loader.Gguf.Reader.Moves.{Takes}
use ocelotl.Loader.Gguf.Values.Least.{header-Takes, skip-Takes, reserve-Stays}
use ocelotl.Loader.Gguf.Reader.Takes.{Stays, le-Takes, repeat-Takes}
use ocelotl.Loader.Gguf.Values.{
  try_reserve_exact, read_text, read_string, skip_string, read_array_header, skip_metadata_string,
  skip_metadata_value, read_array, read_metadata_value,
}

-- Where `read` succeeds, `skip` leaves the reader at the same place.
abbrev pub SkippedBy : {A : Type 0} → Reading A → Reading (Unit {0}) → Type 0
SkippedBy {A} read skip =
    (r s : GgufReader) (a : A)
    → IsPlaced r
    → read r ≡ ok (a, s)
    → (skip r ≡ ok (tt, s)) × IsPlaced s

bytes-SkippedBy : (n : ℕ) → SkippedBy (read_exact_header_part n) (skip_bytes n)
bytes-SkippedBy n r s bytes p h =
    let (moved, _) = read_exact_ok n r s bytes h in
    (skip_bytes_ok n r s p moved, Moved-IsPlaced n r s moved p)

-- What follows without moving the cursor.
pub then-SkippedBy :
    {A B : Type 0} (m : Reading A) (next : A → Reading B) (skip : Reading (Unit {0}))
    → ((a : A) (r s : GgufReader) (b : B) → next a r ≡ ok (b, s) → s ≡ r)
    → SkippedBy m skip
    → SkippedBy (m >>= next) skip
then-SkippedBy m next skip stays like r t b p h =
    let (a, s, first, rest) = bind_ok m next r t h in
    let same = stays a s t b rest in
    let (skips, placed) = like r s a p first in
    (skips ∙ ap (λ x. ok (tt, x)) (sym same), subst IsPlaced (sym same) placed)

done_stays :
    {A B : Type 0} (f : A → B) (a : A) (r s : GgufReader) (b : B) → done (f a) r ≡ ok (b, s) → s ≡ r
done_stays f a r s b h = cc

pub le-SkippedBy : (n : ℕ) → SkippedBy (read_le n) (skip_bytes n)
unfolding read_le
le-SkippedBy n =
    then-SkippedBy (read_exact_header_part n) _ (skip_bytes n)
      (λ a r s b h. done_stays from_le_bytes a r s b h) (bytes-SkippedBy n)

bool-SkippedBy : SkippedBy read_bool (skip_bytes 1)
unfolding read_bool
bool-SkippedBy =
    then-SkippedBy (read_le 1) _ (skip_bytes 1) (λ a r s b h. ground arith) (le-SkippedBy 1)

pub repeat-SkippedBy :
    {A : Type 0} (n : ℕ) (m : Reading A) (skip : Reading (Unit {0}))
    → SkippedBy m skip
    → SkippedBy (collect n m) (repeat n skip)
repeat-SkippedBy zero m skip like r s a p h = (cc, ground (arith, p))
repeat-SkippedBy (suc n) m skip like r u a p h =
    let (b, s, first, rest) = bind_ok m _ r u h in
    let (bs, t, second, last) = bind_ok (collect n m) _ s u rest in
    let (skips, placed) = like r s b p first in
    let (others, placed') = repeat-SkippedBy n m skip like s t bs placed second in
    let same : t ≡ u = ground arith in
    (
      bind_step skip (λ _. repeat n skip) r s tt skips ∙ others ∙ ap (λ x. ok (tt, x)) same,
      subst IsPlaced same placed',
    )

pub header-SkippedBy :
    {A B : Type 0} (m : Reading A) (read : A → Reading B) (skip : A → Reading (Unit {0}))
    → ((r s : GgufReader) (a : A) → IsPlaced r → m r ≡ ok (a, s) → IsPlaced s)
    → ((a : A) → SkippedBy (read a) (skip a))
    → SkippedBy (m >>= read) (m >>= skip)
header-SkippedBy m read skip keeps like r t b p h =
    let (a, s, first, rest) = bind_ok m read r t h in
    let (skips, placed) = like a s t b (keeps r s a p first) rest in
    (bind_step m skip r s a first ∙ skips, placed)

-- Behind a reading that stays, and behind one guard in both.
pub before-SkippedBy :
    {A B : Type 0} (m : Reading A) (read : A → Reading B) (skip : Reading (Unit {0}))
    → Stays m
    → ((a : A) → SkippedBy (read a) skip)
    → SkippedBy (m >>= read) skip
before-SkippedBy m read skip stays like r t b p h =
    let (a, s, first, rest) = bind_ok m read r t h in
    let same : s ≡ r = stays r s a first in
    like a r t b p (subst (λ x. read a x ≡ ok (b, t)) same rest)

pub guarded-SkippedBy :
    {A : Type 0} (test : GgufReader → Bool) (e : GgufReader → Result (A × GgufReader))
    (f : GgufReader → Result (Unit {0} × GgufReader)) (read : Reading A) (skip : Reading (Unit {0}))
    → ((r s : GgufReader) (a : A) → e r ≡ ok (a, s) → ⊥)
    → SkippedBy read skip
    → SkippedBy (λ r. if test r then e r else read r) (λ r. if test r then f r else skip r)
guarded-SkippedBy test e f read skip refuses like r s a p h = elim (Bool-cases (test r)) [
  | inl t ↦ absurd (refuses r s a (rw t at h))
  | inr t ↦ rw t (like r s a p (rw t at h))
]

pub Takes-IsPlaced :
    {A : Type 0} (k : ℕ) (m : Reading A)
    → Takes k m
    → (r s : GgufReader) (a : A) → IsPlaced r
    → m r ≡ ok (a, s)
    → IsPlaced s
Takes-IsPlaced k m p r s a v h = let (n, _, moved) = p r s a v h in Moved-IsPlaced n r s moved v

module _ (is_utf8 : List ℕ → Bool) (can_reserve : String → ℕ → Bool) where
  text-SkippedBy :
      (field : String) (len : ℕ)
      → SkippedBy (read_text is_utf8 can_reserve field len) (skip_bytes len)
  unfolding read_text
  text-SkippedBy field len =
      before-SkippedBy (try_reserve_exact is_utf8 can_reserve field len) _ (skip_bytes len)
        (reserve-Stays is_utf8 can_reserve field len)
        (λ _.
          then-SkippedBy (read_exact_header_part len) _ (skip_bytes len)
            (λ bytes r s a h. ground arith) (bytes-SkippedBy len))

  pub string-SkippedBy :
      (field field' : String) (max_len : ℕ)
      → SkippedBy (read_string is_utf8 can_reserve field max_len) (skip_string field' max_len)
  unfolding read_string skip_string
  string-SkippedBy field field' max_len =
      header-SkippedBy (read_le 8) _ _ (Takes-IsPlaced 8 (read_le 8) (le-Takes 8)) (λ len.
        guarded-SkippedBy (λ r. ltb max_len len || ltb r.limits.max_metadata_string_bytes len) _ _
          (read_text is_utf8 can_reserve field len) (skip_bytes len) (λ r s a h. cc)
          (text-SkippedBy field len))

  -- An array of Booleans, and one that is skipped in both.
  bools-SkippedBy :
      (left len : ℕ)
      → SkippedBy
          (read_array is_utf8 can_reserve left GgufMetadataType.bool len)
          (repeat len (skip_metadata_value left GgufMetadataType.bool))
  unfolding read_array skip_metadata_value
  bools-SkippedBy left len =
      before-SkippedBy (try_reserve_exact is_utf8 can_reserve "metadata bool array" len) _ _
        (reserve-Stays is_utf8 can_reserve "metadata bool array" len)
        (λ _.
          then-SkippedBy (collect len read_bool) _ _ (λ a r s b h. cc)
            (repeat-SkippedBy len read_bool (skip_bytes 1) bool-SkippedBy))

  skipped-SkippedBy :
      (left : ℕ) (t : GgufMetadataType) (len : ℕ)
      → SkippedBy
          (repeat len (skip_metadata_value left t) >> done (GgufMetadataValue.array t len))
          (repeat len (skip_metadata_value left t))
  skipped-SkippedBy left t len =
      then-SkippedBy (repeat len (skip_metadata_value left t)) _ _ (λ a r s b h. cc)
        (λ r s a p h.
          (h, Takes-IsPlaced (len * 1) _ (repeat-Takes len 1 _ (skip-Takes left t)) r s a p h))

  array-SkippedBy :
      (left : ℕ) (t : GgufMetadataType) (len : ℕ)
      → SkippedBy
          (read_array is_utf8 can_reserve left t len)
          (repeat len (skip_metadata_value left t))
  unfolding read_array
  array-SkippedBy left GgufMetadataType.bool len = bools-SkippedBy left len
  array-SkippedBy left GgufMetadataType.u8 len = skipped-SkippedBy left _ len
  array-SkippedBy left GgufMetadataType.i8 len = skipped-SkippedBy left _ len
  array-SkippedBy left GgufMetadataType.u16 len = skipped-SkippedBy left _ len
  array-SkippedBy left GgufMetadataType.i16 len = skipped-SkippedBy left _ len
  array-SkippedBy left GgufMetadataType.u32 len = skipped-SkippedBy left _ len
  array-SkippedBy left GgufMetadataType.i32 len = skipped-SkippedBy left _ len
  array-SkippedBy left GgufMetadataType.f32 len = skipped-SkippedBy left _ len
  array-SkippedBy left GgufMetadataType.u64 len = skipped-SkippedBy left _ len
  array-SkippedBy left GgufMetadataType.i64 len = skipped-SkippedBy left _ len
  array-SkippedBy left GgufMetadataType.f64 len = skipped-SkippedBy left _ len
  array-SkippedBy left GgufMetadataType.string len = skipped-SkippedBy left _ len
  array-SkippedBy left GgufMetadataType.array len = skipped-SkippedBy left _ len

  number-SkippedBy :
      (n : ℕ) (c : ℕ → GgufMetadataValue) → SkippedBy (read_le n >>= λ v. done (c v)) (skip_bytes n)
  number-SkippedBy n c =
      then-SkippedBy (read_le n) _ (skip_bytes n) (λ v r s a h. cc) (le-SkippedBy n)

  pub value-SkippedBy :
      (left : ℕ) (t : GgufMetadataType)
      → SkippedBy (read_metadata_value is_utf8 can_reserve left t) (skip_metadata_value left t)
  unfolding read_metadata_value skip_metadata_value
  value-SkippedBy left GgufMetadataType.u8 = number-SkippedBy 1 GgufMetadataValue.u8
  value-SkippedBy left GgufMetadataType.i8 = number-SkippedBy 1 GgufMetadataValue.i8
  value-SkippedBy left GgufMetadataType.u16 = number-SkippedBy 2 GgufMetadataValue.u16
  value-SkippedBy left GgufMetadataType.i16 = number-SkippedBy 2 GgufMetadataValue.i16
  value-SkippedBy left GgufMetadataType.u32 = number-SkippedBy 4 GgufMetadataValue.u32
  value-SkippedBy left GgufMetadataType.i32 = number-SkippedBy 4 GgufMetadataValue.i32
  value-SkippedBy left GgufMetadataType.f32 = number-SkippedBy 4 GgufMetadataValue.f32
  value-SkippedBy left GgufMetadataType.u64 = number-SkippedBy 8 GgufMetadataValue.u64
  value-SkippedBy left GgufMetadataType.i64 = number-SkippedBy 8 GgufMetadataValue.i64
  value-SkippedBy left GgufMetadataType.f64 = number-SkippedBy 8 GgufMetadataValue.f64
  value-SkippedBy left GgufMetadataType.bool =
      then-SkippedBy read_bool _ (skip_bytes 1) (λ b r s a h. cc) bool-SkippedBy
  value-SkippedBy left GgufMetadataType.string =
      then-SkippedBy
        (λ r.
          read_string is_utf8 can_reserve "metadata string" r.limits.max_metadata_string_bytes r)
        _ skip_metadata_string (λ b r s a h. cc)
        (λ r s a p h.
          string-SkippedBy "metadata string" "metadata string" r.limits.max_metadata_string_bytes r
            s a p h)
  value-SkippedBy zero GgufMetadataType.array = λ r s a p h. absurd (cc)
  value-SkippedBy (suc left) GgufMetadataType.array =
      header-SkippedBy (read_array_header (suc left)) _ _
        (Takes-IsPlaced 12 _ (header-Takes (suc left)))
        (λ header. array-SkippedBy left (header.0) (header.1))

  -- With the cursor in the file and before the header limit: where reading a metadata value succeeds,
  -- skipping one of that type succeeds too and leaves the reader in the same state, at any depth.
  pub read-skip_metadata_value :
      (left : ℕ) (t : GgufMetadataType) (r s : GgufReader) (v : GgufMetadataValue)
      → IsPlaced r
      → read_metadata_value is_utf8 can_reserve left t r ≡ ok (v, s)
      → skip_metadata_value left t r ≡ ok (tt, s)
  read-skip_metadata_value left t r s v p h = (value-SkippedBy left t r s v p h).0
