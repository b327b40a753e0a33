-- ===== src/Loader.antt =====
-- crates/loader: what a model file declares, read without its tensor data.
pub mod Gguf
mod Tests
