-- ===== src/Parakeet.antt =====
-- The parts of Parakeet transcription that count frames: crates/models/src/parakeet.
pub mod Frames
pub mod Audio
pub mod Chunk
pub mod Decoder
mod Tests
