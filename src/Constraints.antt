-- ===== src/Constraints.antt =====
-- src/decoding_utils.cc: the tokens that a step of the search may not give.
pub mod Defs
pub mod Processors
pub mod Disabled
pub mod Ngrams
pub mod NoRepeat
pub mod Sequences
pub mod Suppress
mod Tests
