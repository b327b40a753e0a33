-- ===== src/Loader/Gguf/Reader/Takes.antt =====
-- How many bytes a reading takes at least, from those of its parts.
use ocelotl.Common.{
  ℕ, zero, suc, ◌+◌, ◌*◌, ◌≤◌, ◌≡◌, sym, subst, inl, inr, Bool, if◌then◌else◌, arith, Bool-cases,
}
use ocelotl.Core.Errors.{Result, ok, err, panic}
use ocelotl.Loader.Gguf.Reader.{
  GgufReader, Reading, ◌>>=◌, lift, read_exact_header_part, read_le, read_bool, skip_bytes, collect,
  repeat,
}
use ocelotl.Loader.Gguf.Reader.Moves.{
  Moved, Moved-trans, Takes, Moved-IsPlaced, nothing-Moved, bind_ok, read_exact_ok,
  skip_bytes_moves,
}

-- A reading that does not move the cursor.
abbrev pub Stays : {A : Type 0} → Reading A → Type 0
Stays {A} m = (r s : GgufReader) (a : A) → m r ≡ ok (a, s) → s ≡ r

-- A reading that moves it, for readers in the file and before the limit.
pub bind-Takes :
    {A B : Type 0} (k l : ℕ) (m : Reading A) (next : A → Reading B)
    → Takes k m
    → ((a : A) → Takes l (next a))
    → Takes (k + l) (m >>= next)
bind-Takes k l m next p q r t b v h =
    let (a, s, first, rest) = bind_ok m next r t h in
    let (n, kn, moved) = p r s a v first in
    let (n', ln, moved') = q a s t b (Moved-IsPlaced n r s moved v) rest in
    (n + n', omega arith, Moved-trans n n' r s t moved moved')

pub after-Takes :
    {A B : Type 0} (k : ℕ) (m : Reading A) (next : A → Reading B)
    → Takes k m
    → ((a : A) → Stays (next a))
    → Takes k (m >>= next)
after-Takes k m next p q r t b v h =
    let (a, s, first, rest) = bind_ok m next r t h in
    let (n, kn, moved) = p r s a v first in (n, kn, subst (Moved n r) (sym (q a s t b rest)) moved)

pub before-Takes :
    {A B : Type 0} (k : ℕ) (m : Reading A) (next : A → Reading B)
    → Stays m
    → ((a : A) → Takes k (next a))
    → Takes k (m >>= next)
before-Takes k m next p q r t b v h =
    let (a, s, first, rest) = bind_ok m next r t h in
    let same : s ≡ r = p r s a first in q a r t b v (subst (λ x. next a x ≡ ok (b, t)) same rest)

pub weaker-Takes : {A : Type 0} (k l : ℕ) (m : Reading A) → k ≤ l → Takes l m → Takes k m
weaker-Takes k l m h p r s a v e = let (n, ln, moved) = p r s a v e in (n, omega arith, moved)

pub bytes-Takes : (n : ℕ) → Takes n (read_exact_header_part n)
bytes-Takes n r s a v h = (n, omega arith, (read_exact_ok n r s a h).0)

pub le-Takes : (n : ℕ) → Takes n (read_le n)
unfolding read_le
le-Takes n = after-Takes n (read_exact_header_part n) _ (bytes-Takes n) (λ a r s b h. cc)

pub bool-Takes : Takes 1 read_bool
unfolding read_bool
bool-Takes = after-Takes 1 (read_le 1) _ (le-Takes 1) (λ a r s b h. ground arith)

pub lift-Stays : {A : Type 0} (x : Result A) → Stays (lift x)
lift-Stays (ok a) r s b h = cc
lift-Stays (err e) r s b h = cc
lift-Stays panic r s b h = cc

-- A guarded reading takes what it guards.
pub guarded-Takes :
    {A : Type 0} (k : ℕ) (test : GgufReader → Bool) (e : GgufReader → Result (A × GgufReader))
    (m : Reading A)
    → ((r s : GgufReader) (a : A) → e r ≡ ok (a, s) → ⊥)
    → Takes k m
    → Takes k (λ r. if test r then e r else m r)
guarded-Takes k test e m refuses p r s a v h = elim (Bool-cases (test r)) [
  | inl t ↦ absurd (refuses r s a (rw t at h))
  | inr t ↦ p r s a v (rw t at h)
]

pub Stays-Takes : {A : Type 0} (m : Reading A) → Stays m → Takes 0 m
Stays-Takes m p r s a v h =
    (0, omega arith, subst (Moved 0 r) (sym (p r s a h)) (nothing-Moved r v))

-- A loop of readings, as long as one of them.
pub collect-Takes : {A : Type 0} (n k : ℕ) (m : Reading A) → Takes k m → Takes (n * k) (collect n m)
collect-Takes zero k m p =
    weaker-Takes (0 * k) 0 (collect zero m) (omega arith)
      (Stays-Takes (collect zero m) (λ r s a h. cc))
collect-Takes (suc n) k m p =
    weaker-Takes (suc n * k) (k + n * k) (collect (suc n) m) (omega arith) (
      bind-Takes k (n * k) m _ p
        (λ a. after-Takes (n * k) (collect n m) _ (collect-Takes n k m p) (λ b r s c e. cc)))

pub repeat-Takes : (n k : ℕ) (m : Reading (Unit {0})) → Takes k m → Takes (n * k) (repeat n m)
repeat-Takes zero k m p =
    weaker-Takes (0 * k) 0 (repeat zero m) (omega arith)
      (Stays-Takes (repeat zero m) (λ r s a h. cc))
repeat-Takes (suc n) k m p =
    weaker-Takes (suc n * k) (k + n * k) (repeat (suc n) m) (omega arith)
      (bind-Takes k (n * k) m _ p (λ a. repeat-Takes n k m p))

pub skip_bytes-Takes : (n : ℕ) → Takes n (skip_bytes n)
skip_bytes-Takes n r s a v h = (n, omega arith, skip_bytes_moves n r s v h)
