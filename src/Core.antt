-- ===== src/Core.antt =====
-- crates/core: the errors, the resource limits and the cache layouts.
pub mod Errors
pub mod Words
pub mod Panics
pub mod Tokens
pub mod Limits
pub mod ArtifactLimits
pub mod KvLayout
pub mod PagedLayout
mod Tests
