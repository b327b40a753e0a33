-- ===== src/Core/Tokens.antt =====
-- crates/core/src/lib.rs, `TokenId`.
use ocelotl.Common.{ℕ}

-- A `u32`, without its wrapper.
abbrev pub TokenId : Type 0
TokenId = ℕ
