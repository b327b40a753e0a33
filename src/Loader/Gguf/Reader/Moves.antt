-- ===== src/Loader/Gguf/Reader/Moves.antt =====
-- `GgufReader`: how far the cursor moves.
use ocelotl.Common.{
  ℕ, ◌+◌, ◌-◌, ◌≤◌, ◌<◌, ◌≡◌, refl, ap, ◌∙◌, List, arith, length, take, drop, length-drop,
  drop-drop,
}
use ocelotl.Core.Errors.{Result, ok, err, panic}
use ocelotl.Core.Words.{checked_add, usize_range}
use ocelotl.Loader.Gguf.Reader.{
  GgufReader, Reading, ◌>>=◌, advance, read_exact_header_part, skip_bytes,
}

-- A move of the cursor by `n` bytes, all of them in the file and before the header limit.
pub record Moved (n : ℕ) (r r' : GgufReader) : Type 0 where
  pub reached : r' ≡ advance n r
  pub inside : n ≤ length r.file
  pub before_limit : r.position + n ≤ r.limits.max_header_bytes
  pub in_range : r.position + n < usize_range

-- The cursor lies before the limit, and with what comes after it makes up the file.
pub record IsPlaced (r : GgufReader) : Type 0 where
  pub whole : r.position + length r.file ≡ r.file_len
  pub before_limit : r.position ≤ r.limits.max_header_bytes
  pub in_range : r.position < usize_range

pub Moved-trans : (n m : ℕ) (r s t : GgufReader) → Moved n r s → Moved m s t → Moved (n + m) r t
Moved-trans n m r s t p q =
    let step : s ≡ advance n r = p.reached in
    let files : s.file ≡ drop n r.file = ap (λ (x : GgufReader). x.file) step in
    let places : s.position ≡ r.position + n = ap (λ (x : GgufReader). x.position) step in
    let same : s.limits ≡ r.limits = ap (λ (x : GgufReader). x.limits) step in
    let limit : s.limits.max_header_bytes ≡ r.limits.max_header_bytes =
      ap (λ l. l.max_header_bytes) same in
    let left : length s.file ≡ length r.file - n = ap length files ∙ length-drop n r.file in
    let total : r.position + n + m ≡ r.position + (n + m) = omega arith in
    record {
      reached = q.reached ∙ ap (advance m) step ∙ ap₂' (drop-drop n m r.file) total;
      inside = omega (arith, p.inside, q.inside, left);
      before_limit = omega (arith, q.before_limit, places, limit);
      in_range = omega (arith, q.in_range, places);
    }
  where
    ap₂' :
        {f g : List ℕ} {a b : ℕ}
        → f ≡ g
        → a ≡ b
        → record r { file = f; position = a } ≡ record r { file = g; position = b }
    ap₂' e e' = λ i. record r { file = e i; position = e' i }

pub Moved-IsPlaced : (n : ℕ) (r s : GgufReader) → Moved n r s → IsPlaced r → IsPlaced s
Moved-IsPlaced n r s p h = rw p.reached (record {
  whole = omega (arith, p.inside, length-drop n r.file, h.whole);
  before_limit = p.before_limit;
  in_range = p.in_range;
})

-- The cursor may also stay.
pub nothing-Moved : (r : GgufReader) → IsPlaced r → Moved 0 r r
nothing-Moved r p = record {
  reached =
      let e : r.position ≡ r.position + 0 = omega arith in ap (λ n. record r { position = n }) e;
  inside = omega arith;
  before_limit = omega (arith, p.before_limit);
  in_range = omega (arith, p.in_range);
}

-- What a reading that succeeds did to the reader.
pub bind_ok :
    {A B : Type 0} (m : Reading A) (next : A → Reading B) (r t : GgufReader) {b : B}
    → (m >>= next) r ≡ ok (b, t)
    → (a : A) × (s : GgufReader) × (m r ≡ ok (a, s)) × (next a s ≡ ok (b, t))
bind_ok m next r t {b} h = split (m r) refl h
  where
    split :
        (x : Result (_ × GgufReader))
        → m r ≡ x
        → (elim x [ ok (a, s) ↦ next a s | err e ↦ err e | panic ↦ panic ]) ≡ ok (b, t)
        → (a : _) × (s : GgufReader) × (m r ≡ ok (a, s)) × (next a s ≡ ok (b, t))
    split (ok (a, s)) e k = (a, s, e, k)
    split (err x) e k = cc
    split panic e k = cc

-- A reading that takes `least` bytes at least, if it succeeds.
abbrev pub Takes : {A : Type 0} → ℕ → Reading A → Type 0
Takes {A} least m =
    (r s : GgufReader) (a : A) → IsPlaced r → m r ≡ ok (a, s) → (n : ℕ) × (least ≤ n) × Moved n r s

pub read_exact_ok :
    (n : ℕ) (r s : GgufReader) (bytes : List ℕ)
    → read_exact_header_part n r ≡ ok (bytes, s)
    → Moved n r s × (bytes ≡ take n r.file)
unfolding read_exact_header_part checked_add
read_exact_ok n r s bytes h = (
  record {
    reached = ground arith;
    inside = ground arith;
    before_limit = ground arith;
    in_range = ground arith;
  },
  ground arith,
)

-- A skip succeeds exactly where the bytes are there.
pub skip_bytes_ok :
    (n : ℕ) (r s : GgufReader) → IsPlaced r → Moved n r s → skip_bytes n r ≡ ok (tt, s)
unfolding skip_bytes checked_add
skip_bytes_ok n r s h p = ground (arith, p.reached, h.whole, p.inside, p.before_limit, p.in_range)

pub skip_bytes_moves :
    (n : ℕ) (r s : GgufReader) → IsPlaced r → skip_bytes n r ≡ ok (tt, s) → Moved n r s
unfolding skip_bytes checked_add
skip_bytes_moves n r s p h = record {
  reached = ground arith;
  inside = ground arith;
  before_limit = ground arith;
  in_range = ground arith;
}

pub bind_step :
    {A B : Type 0} (m : Reading A) (next : A → Reading B) (r s : GgufReader) (a : A)
    → m r ≡ ok (a, s)
    → (m >>= next) r ≡ next a s
bind_step m next r s a h = rw (h, ◌>>=◌) refl
