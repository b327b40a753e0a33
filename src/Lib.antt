-- ===== src/Lib.antt =====
-- Ocelotl, a local inference runtime in Rust: the parts that decide what is admitted, where a
-- cached value lies and who gets which token.
--
-- The program. crates/core holds the errors, the resource limits and the shapes of key/value
-- caches. crates/runtime holds two caches behind the trait `KvCacheStore`, one with a flat tensor
-- a layer and one with pages of tokens found through a page table; an allocator that hands out the
-- pages; and a scheduler that decodes a batch of requests one token at a time, round after round.
-- For Whisper, a plan cuts a recording into chunks, and a loop decodes a chunk, choosing the best
-- token that the tokenizer's mask allows. For Parakeet, crates/models plans windows of frames, encodes
-- them one by one and decodes the stitched frames with a loop that predicts how far to move on. The
-- transcripts of a test corpus are scored by their word error rate.
-- crates/loader reads the header of a GGUF file, under the artifact limits of crates/core, for the
-- tensors and again for the tokenizer. The caches ask their layout for every size and offset,
-- the allocator builds paged caches and takes their pages back, and the scheduler asks the limits
-- whether to take a request.
--
-- The files. A directory holds the children of the module beside it: first its laws, then its tests.
--   Common                 shared names, Boolean tests, lists, slices
--   Core/Errors            crates/core/src/lib.rs, `OcelotlError` and `Result`
--   Core/Words             the checked `usize` operations of the standard library
--   Core/Panics            where `usize` arithmetic and the allocation of a vector panic
--   Core/Limits            crates/core/src/limits.rs, `RequestLimits`
--   Core/ArtifactLimits    crates/core/src/limits.rs, `ArtifactLimits`
--   Core/KvLayout          crates/core/src/lib.rs, `KvCacheLayout`
--   Core/PagedLayout       crates/core/src/lib.rs, `PagedKvCacheLayout`
--   KvCache/Store          crates/core/src/lib.rs, the trait `KvCacheStore`, with a contract
--   KvCache/Storage        crates/runtime/src/kv_cache.rs, what the two caches share
--   KvCache/Contiguous     crates/runtime/src/kv_cache.rs, `ContiguousKvCache`
--   KvCache/Paged          crates/runtime/src/kv_cache.rs, `PagedKvCache`
--   KvCache/Equivalence    the two caches side by side
--   KvCache/Allocator      crates/runtime/src/kv_cache.rs, `PagedKvCacheAllocator`
--   Scheduler              crates/runtime/src/scheduler.rs, submission, cancellation, admission
--   Scheduler/State        crates/runtime/src/scheduler.rs, `SchedulerRequestState`
--   Scheduler/Run          crates/runtime/src/scheduler.rs, `run_to_completion`
--   Scheduler/Batch        the batch beside the decoding of one prompt after the other
--   Whisper/Tokens         crates/tokenizer/src/whisper.rs, the startup tokens and the decode mask
--   Whisper/Segments       crates/tokenizer/src/whisper.rs, the segments between timestamps
--   Whisper/Sampling       crates/runtime/src/sampling.rs, and the sampler under a mask of
--                          crates/runtime/src/whisper/transcribe.rs
--   Whisper/Audio          crates/models/src/whisper/audio.rs, the checks on audio
--   Whisper/Decode         crates/runtime/src/whisper/transcribe.rs, the decode loop
--   Whisper/Chunks         crates/runtime/src/whisper/streaming.rs, the plan of the chunks
--   Whisper/Wer            crates/models/src/whisper/wer.rs, the table of edit paths
--   Whisper/Score          crates/models/src/whisper/wer.rs, counts, scores and corpus reports
--   Loader/Gguf/Types      crates/loader/src/gguf_inspect.rs, the data of a header
--   Loader/Gguf/Reader     crates/loader/src/gguf_inspect.rs, `GgufReader`: bytes and numbers
--   Loader/Gguf/Values     crates/loader/src/gguf_inspect.rs, `GgufReader`: texts and metadata values
--   Loader/Gguf/Layout     crates/loader/src/gguf_inspect.rs, the alignment and the tensors' ranges
--   Loader/Gguf/Inspect    crates/loader/src/gguf_inspect.rs, the parts of `inspect_gguf_with_limits`
--   Loader/Gguf/Manifest   crates/loader/src/gguf_inspect.rs, `inspect_gguf_with_limits`
--   Loader/Gguf/Tokenizer  crates/loader/src/gguf_inspect.rs, `inspect_gguf_tokenizer_with_limits`
--   Parakeet/Frames        crates/models/src/parakeet/audio.rs and subsample.rs, the numbers of frames
--   Parakeet/Audio         crates/models/src/parakeet/audio.rs, the number of the mel frames
--   Parakeet/Chunk         crates/models/src/parakeet/chunk.rs and `encode_audio_chunked` of model.rs
--   Parakeet/Decoder       crates/models/src/parakeet/decoder.rs, `greedy_decode`
--
-- The model. A struct is a record, an enum a data type, and a function or method keeps its name. A
-- method that changes its object returns the new object; where it may fail after a change it
-- returns both, the object and the outcome. An outcome is `ok`, `err` with the source's error, or
-- `panic`, which stands for a Rust panic: a slice out of range, an unchecked `usize` operation out
-- of range (as in a build with overflow checks), a vector that is allocated at once with more than
-- `isize::MAX` bytes. That memory runs out, as when a vector grows, is left out. A
-- message is its format string with the placeholders unfilled. `usize` has 64 bits. A vector, a
-- deque and a slice are lists; a hash set of seen pages is the list of them. `f32` is a type
-- parameter `F` with one value for zero: the caches move values and never compute with them; the
-- samplers compare logits by an abstract `>`, whose laws on values that are not NaN are
-- hypotheses. Seconds are of an abstract type.
--
-- Parameters. The decode model (a trait object) is a function into outcomes, the Whisper model a
-- record of functions (its encoder and decoder compute with floats), and whether the standard
-- library finds room for a vector (`try_reserve_exact`) is a function of the size. The encoder of
-- Parakeet and its prediction and joint networks are functions into outcomes. A file is the list of its
-- bytes, which does not change while it is read; opening it is an outcome, and whether bytes are UTF-8
-- is a function of them. For the word error rate, the case and the class of characters, the words of a
-- text and the blank ids are functions too. A text of a file is the list of its bytes, and a number
-- keeps its bit pattern.
--
-- Fuel. The decode loop of the scheduler takes as fuel one more than the sum over the active slots
-- of the tokens still wanted and one; each round lowers that sum. The loop of the chunk plan takes
-- one more than the number of samples; each round moves the start. The plan of Parakeet's windows takes
-- the number of frames, and its decoding one more than the limit on steps, each of which a round
-- records. All other loops are structural; the nesting of GGUF arrays is bounded by the depth left.
--
-- Not modelled. The values of the audio features, whose number and errors are modelled. The
-- constructors of a layout from model metadata, the kernels and the forward passes of the models,
-- the readers of safetensors files and of tensor values, the byte-pair tokenizers, the command line
-- and the server.
pub mod Common
pub mod Core
pub mod KvCache
pub mod Scheduler
pub mod Loader
pub mod Parakeet
pub mod Whisper
