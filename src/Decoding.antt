-- ===== src/Decoding.antt =====
-- src/decoding.cc: the search for output tokens.
pub mod Defs
pub mod Greedy
pub mod Hypotheses
pub mod Repeats
pub mod Lanes
pub mod RowSteps
pub mod DecodeRows
pub mod Refinement
pub mod Batch
pub mod Start
pub mod OneHypothesis
pub mod Length
pub mod MaxLength
pub mod Prefix
pub mod ResultCount
pub mod Samples
mod Tests
