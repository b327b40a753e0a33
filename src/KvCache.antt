-- ===== src/KvCache.antt =====
-- crates/runtime/src/kv_cache.rs: the key/value caches of the runtime.
pub mod Storage
pub mod Store
pub mod Contiguous
pub mod Paged
pub mod Equivalence
pub mod Allocator
mod Tests
