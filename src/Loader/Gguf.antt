-- ===== src/Loader/Gguf.antt =====
-- crates/loader/src/gguf_inspect.rs: the headers of GGUF files.
pub mod Types
pub mod Reader
pub mod Values
pub mod Layout
pub mod Inspect
pub mod Manifest
pub mod Tokenizer
