-- ===== src/Whisper.antt =====
-- The parts of Whisper transcription that decide which token comes next and where a chunk lies:
-- crates/tokenizer/src/whisper.rs, crates/runtime/src/sampling.rs and crates/runtime/src/whisper.
pub mod Tokens
pub mod Segments
pub mod Sampling
pub mod Audio
pub mod Decode
pub mod Chunks
pub mod Wer
pub mod Score
mod Tests
