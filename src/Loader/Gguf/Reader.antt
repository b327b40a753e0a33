-- ===== src/Loader/Gguf/Reader.antt =====
-- crates/loader/src/gguf_inspect.rs, `GgufReader`: a cursor on a file that stops at the header limit.
-- `file` is what lies after the cursor, and `file_len` the length of the whole. The file does not
-- change while it is read, and reading it fails at its end only.
pub mod Moves
pub mod Takes
pub mod Gives
use ocelotl.Common.{
  ℕ, zero, suc, ◌+◌, ◌-◌, ◌*◌, Bool, true, false, ◌||◌, Option, none, some, List, [], ◌∷◌, String,
  ltb, ◌==◌, if◌then◌else◌, length, take, drop, min,
}
use ocelotl.Core.Errors.{Result, ok, err, panic}
use ocelotl.Core.Words.{checked_add}
use ocelotl.Core.ArtifactLimits.{ArtifactLimits}
use ocelotl.Loader.Gguf.Types.{invalid_gguf}

pub record GgufReader : Type 0 where
  pub file : List ℕ
  pub path : Option String
  pub file_len : ℕ
  pub position : ℕ
  pub limits : ArtifactLimits

-- A method of the reader.
abbrev pub Reading {ℓ} : Type ℓ → Type ℓ
Reading A = GgufReader → Result (A × GgufReader)

infixl 5 ◌>>=◌ ◌>>◌
abbrev pub ◌>>=◌ : {A B : Type 0} → Reading A → (A → Reading B) → Reading B
◌>>=◌ m next r = elim (m r) [ ok (a, r') ↦ next a r' | err e ↦ err e | panic ↦ panic ]

abbrev pub ◌>>◌ : {B : Type 0} → Reading (Unit {0}) → Reading B → Reading B
m >> next = m >>= λ _. next

abbrev pub done : {A : Type 0} → A → Reading A
done a r = ok (a, r)

abbrev pub failed : {A : Type 0} → String → String → Reading A
failed field message r = err (invalid_gguf r.path field message)

-- A call that does not use the reader.
abbrev pub lift : {A : Type 0} → Result A → Reading A
lift (ok a) r = ok (a, r)
lift (err e) r = err e
lift panic r = panic

-- The reader after `n` bytes.
abbrev pub advance : ℕ → GgufReader → GgufReader
advance n r = record r { file = drop n r.file; position = r.position + n }

unfoldable pub read_exact_header_part : ℕ → Reading (List ℕ)
read_exact_header_part n r = elim (checked_add r.position n) [
  | none ↦ err (invalid_gguf r.path "header" "GGUF header position overflows u64")
  | some end ↦
      if ltb r.limits.max_header_bytes end
      then err (
          invalid_gguf r.path "header"
            "GGUF metadata/tensor-info region exceeds configured header limit {}")
      else (if ltb (length r.file) n
          then err (invalid_gguf r.path "header" "GGUF header is truncated")
          else ok (take n r.file, advance n r))
]

-- `from_le_bytes`.
abbrev pub from_le_bytes : List ℕ → ℕ
from_le_bytes [] = 0
from_le_bytes (b ∷ bs) = b + 256 * from_le_bytes bs

unfoldable pub read_le : ℕ → Reading ℕ
read_le width = do buf ← read_exact_header_part width; done (from_le_bytes buf)

abbrev pub read_u8 : Reading ℕ
read_u8 = read_le 1

abbrev pub read_u16 : Reading ℕ
read_u16 = read_le 2

abbrev pub read_u32 : Reading ℕ
read_u32 = read_le 4

abbrev pub read_u64 : Reading ℕ
read_u64 = read_le 8

unfoldable pub read_bool : Reading Bool
read_bool = do
  byte ← read_u8
  if byte == 0
      then done false
      else (if byte == 1
          then done true
          else failed "bool" "GGUF bool value must be 0 or 1, got {other}")

unfoldable pub skip_bytes : ℕ → Reading (Unit {0})
skip_bytes n r = elim (checked_add r.position n) [
  | none ↦ err (invalid_gguf r.path "header" "GGUF skip length {len} overflows file offset")
  | some end ↦
      if ltb r.limits.max_header_bytes end
      then err (
          invalid_gguf r.path "header"
            "GGUF metadata/tensor-info region exceeds configured header limit {}")
      else (if ltb r.file_len end
          then err (
              invalid_gguf r.path "header"
                "GGUF metadata/tensor-info region is truncated: attempted to seek to {end}, file length is {}")
          else ok (tt, advance n r))
]

-- `for _ in 0..n`, pushing what is read and without a value.
abbrev pub collect : {A : Type 0} → ℕ → Reading A → Reading (List A)
collect zero m = done []
collect (suc n) m = m >>= λ a. collect n m >>= λ as'. done (a ∷ as')

abbrev pub repeat : ℕ → Reading (Unit {0}) → Reading (Unit {0})
repeat zero m = done tt
repeat (suc n) m = m >> repeat n m

unfoldable pub remaining_bounded_header_bytes : GgufReader → ℕ
remaining_bounded_header_bytes r = min r.file_len r.limits.max_header_bytes - r.position
