-- ===== src/Core/Panics.antt =====
-- Where `usize` arithmetic and the allocation of a vector panic: a sum or a product that does not fit
-- (as in a build with overflow checks), and more than `isize::MAX` bytes.
use ocelotl.Common.{ℕ, ◌-◌, ◌^◌, ltb, if◌then◌else◌}
use ocelotl.Core.Errors.{Result, ok, panic}
use ocelotl.Core.Words.{usize_range}

abbrev pub or_overflow : ℕ → Result ℕ
or_overflow n = if ltb n usize_range then ok n else panic

-- `isize::MAX`, the bound on the bytes of one vector.
abbrev pub isize_max : ℕ
isize_max = 2 ^ 63 - 1

-- A vector of so many bytes.
abbrev pub allocated {ℓ} : {A : Type ℓ} → ℕ → A → Result A
allocated bytes values = if ltb isize_max bytes then panic else ok values
