-- ===== src/Loader/Gguf/Reader/Gives.antt =====
-- `GgufReader`: what the readings of one file answer.
use ocelotl.Common.{ℕ, zero, suc, ◌≡◌, refl, ap, ◌∙◌, subst, [], ◌∷◌, length, All}
use ocelotl.Core.Errors.{Result, ok, err, panic}
use ocelotl.Loader.Gguf.Reader.{GgufReader, Reading, ◌>>=◌, done, lift, collect}
use ocelotl.Loader.Gguf.Reader.Moves.{Moved, IsPlaced, Takes, Moved-IsPlaced, bind_ok}

-- A later state of the reader `q`.
pub record IsLater (q r : GgufReader) : Type 0 where
  pub limits : r.limits ≡ q.limits
  pub path : r.path ≡ q.path
  pub file_len : r.file_len ≡ q.file_len
  pub placed : IsPlaced r

pub Moved-IsLater : (n : ℕ) (q r s : GgufReader) → Moved n r s → IsLater q r → IsLater q s
Moved-IsLater n q r s m h = record {
  limits = ap (λ (x : GgufReader). x.limits) m.reached ∙ h.limits;
  path = ap (λ (x : GgufReader). x.path) m.reached ∙ h.path;
  file_len = ap (λ (x : GgufReader). x.file_len) m.reached ∙ h.file_len;
  placed = Moved-IsPlaced n r s m h.placed;
}

-- A reading whose answers have a property, and which goes on with the same file.
abbrev pub Gives : {A : Type 0} → GgufReader → (A → Type 0) → Reading A → Type 0
Gives {A} q P m = (r s : GgufReader) (a : A) → IsLater q r → m r ≡ ok (a, s) → P a × IsLater q s

abbrev pub Any : {A : Type 0} → A → Type 0
Any a = Unit {0}

pub Takes-Gives :
    {A : Type 0} (q : GgufReader) (P : A → Type 0) (k : ℕ) (m : Reading A)
    → Takes k m
    → ((r s : GgufReader) (a : A) → IsLater q r → m r ≡ ok (a, s) → P a)
    → Gives q P m
Takes-Gives q P k m p post r s a h e =
    let (n, _, moved) = p r s a h.placed e in (post r s a h e, Moved-IsLater n q r s moved h)

pub bind-Gives :
    {A B : Type 0} (q : GgufReader) (P : A → Type 0) (Q : B → Type 0) (m : Reading A)
    (next : A → Reading B)
    → Gives q P m
    → ((a : A) → P a → Gives q Q (next a))
    → Gives q Q (m >>= next)
bind-Gives q P Q m next p then_next r t b h e =
    let (a, s, first, rest) = bind_ok m next r t e in
    let (pa, later) = p r s a h first in then_next a pa s t b later rest

pub done-Gives : {A : Type 0} (q : GgufReader) (P : A → Type 0) (a : A) → P a → Gives q P (done a)
done-Gives q P a p r s b h e =
    let same : r ≡ s = cc in
    let same_answer : a ≡ b = cc in (subst P same_answer p, subst (IsLater q) same h)

-- A call on what the reader has, which leaves it alone.
pub lift-Gives :
    {A : Type 0} (q : GgufReader) (P : A → Type 0) (f : GgufReader → Result A)
    → ((r : GgufReader) (a : A) → IsLater q r → f r ≡ ok a → P a)
    → Gives q P (λ r. lift (f r) r)
lift-Gives q P f post r s b h e = split (f r) refl e
  where
    split : (x : Result _) → f r ≡ x → lift x r ≡ ok (b, s) → P b × IsLater q s
    split (ok a) k e =
        let same : r ≡ s = cc in
        let same_answer : a ≡ b = cc in
        (subst P same_answer (post r a h k), subst (IsLater q) same h)
    split (err x) k e = cc
    split panic k e = cc

pub collect-Gives :
    {A : Type 0} (q : GgufReader) (P : A → Type 0) (n : ℕ) (m : Reading A)
    → Gives q P m
    → Gives q (λ as'. (length as' ≡ n) × All P as') (collect n m)
collect-Gives q P zero m p = done-Gives q _ [] (refl, tt)
collect-Gives {A} q P (suc n) m p = bind-Gives q P _ m _ p (λ a pa.
    bind-Gives q (λ as'. (length as' ≡ n) × All P as') _ (collect n m) _ (collect-Gives q P n m p)
      (λ as' pas. done-Gives q _ (a ∷ as') (ap suc pas.0, (pa, pas.1))))
