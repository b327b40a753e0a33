-- ===== src/Core/Errors.antt =====
-- crates/core/src/lib.rs: the error type, and the outcome of a call.
-- A `message` holds the source's format string with its placeholders unfilled; paths are texts, and
-- an error value of another library is its text.
use ocelotl.Common.{◌≡◌, refl, ◌⊎◌, inl, inr, Bool, true, false, Option, none, some, List, String}

pub record InvalidModelError : Type 0 where
  pub path : Option String
  pub field : Option String
  pub message : String

pub record InvalidRequestError : Type 0 where
  pub field : String
  pub message : String

pub record UnsupportedError : Type 0 where
  pub feature : String
  pub requested : Option String
  pub supported : List String

pub record TokenizerError : Type 0 where
  pub message : String
  pub source : Option String

pub record KernelError : Type 0 where
  pub backend : String
  pub message : String

pub record RuntimeError : Type 0 where
  pub message : String

pub record IoError : Type 0 where
  pub path : Option String
  pub source : String

pub data OcelotlError : Type 0 where
  invalid_model : InvalidModelError → OcelotlError
  invalid_request : InvalidRequestError → OcelotlError
  unsupported : UnsupportedError → OcelotlError
  tokenizer : TokenizerError → OcelotlError
  kernel : KernelError → OcelotlError
  runtime : RuntimeError → OcelotlError
  io : IoError → OcelotlError

-- `Result<T>`, and a third outcome for the places where Rust panics.
pub data Result {ℓ} (A : Type ℓ) : Type ℓ where
  ok : A → Result A
  err : OcelotlError → Result A
  panic : Result A

-- The operator `?`.
abbrev pub ◌>>=◌ {ℓ κ} : {T : Type ℓ} {U : Type κ} → Result T → (T → Result U) → Result U
panic >>= then_run = panic
err error >>= then_run = err error
ok value >>= then_run = then_run value

-- The same where the value is `()`.
abbrev pub ◌>>◌ {κ} : {U : Type κ} → Result (Unit {0}) → Result U → Result U
check >> next = check >>= λ _. next

infixl 5 ◌>>=◌ ◌>>◌
-- `ok_or_else`.
abbrev pub ok_or {ℓ} : {A : Type ℓ} → Option A → OcelotlError → Result A
ok_or none e = err e
ok_or (some a) e = ok a

-- `r?` in a method of a mutable object: the object keeps what was done to it before.
abbrev pub attempt {ℓ κ σ} :
    {A : Type ℓ} {B : Type κ} {S : Type σ} → Result A → S → (A → S × Result B) → S × Result B
attempt (ok a) s k = k a
attempt (err e) s k = (s, err e)
attempt panic s k = (s, panic)

-- `crates/core/src/limits.rs` and others build these with helper functions of these names.
abbrev pub invalid_request_err : String → String → OcelotlError
invalid_request_err f m = OcelotlError.invalid_request (record { field = f; message = m })

abbrev pub invalid_model_err : Option String → String → String → OcelotlError
invalid_model_err p f m =
    OcelotlError.invalid_model (record { path = p; field = some f; message = m })

abbrev pub runtime_err : String → OcelotlError
runtime_err m = OcelotlError.runtime (record { message = m })

abbrev pub is_ok {ℓ} : {A : Type ℓ} → Result A → Bool
is_ok (ok a) = true
is_ok (err e) = false
is_ok panic = false

abbrev pub is_err {ℓ} : {A : Type ℓ} → Result A → Bool
is_err (ok a) = false
is_err (err e) = true
is_err panic = false

-- A run that succeeds had a value to go on with.
pub >>=-eq-ok {ℓ κ} :
    {T : Type ℓ} {U : Type κ} (first : Result T) (then_run : T → Result U) {u : U}
    → (first >>= then_run) ≡ ok u
    → (value : T) × (first ≡ ok value) × (then_run value ≡ ok u)
>>=-eq-ok panic then_run e = cc
>>=-eq-ok (ok value) then_run e = (value, refl, e)
>>=-eq-ok (err error) then_run e = cc

pub Result-cases {ℓ} :
    {A : Type ℓ} (r : Result A)
    → ((a : A) × (r ≡ ok a)) ⊎ (((e : OcelotlError) × (r ≡ err e)) ⊎ (r ≡ panic))
Result-cases (ok a) = inl (a, refl)
Result-cases (err e) = inr (inl (e, refl))
Result-cases panic = inr (inr refl)
