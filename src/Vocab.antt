-- ===== src/Vocab.antt =====
-- src/vocabulary.cc and src/vocabulary_map.cc: tokens, their ids, and the ids that a source text allows.
pub mod Defs
pub mod Lookup
pub mod Batches
pub mod Files
pub mod Map
pub mod Candidates
pub mod Ordered
mod Tests
