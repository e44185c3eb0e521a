-- ===== src/Batching.antt =====
-- src/batch_reader.cc and include/ctranslate2/batch_reader.h: readers of examples, the batches that
-- they fill, and the reordering of an input into batches.
pub mod Defs
pub mod Readers
pub mod Rebatch
pub mod Feeds
pub mod Cut
pub mod FillLaws
pub mod CutLaws
pub mod VectorLaws
pub mod IndexVector
pub mod RebatchLaws
pub mod Reordering
mod Tests
