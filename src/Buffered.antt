-- ===== src/Buffered.antt =====
-- src/buffered_translation_wrapper.cc: requests are collected in a buffer, and a thread posts them
-- to the pool of a translator.
pub mod System
pub mod Pairs
pub mod Orderly
pub mod Invariant
pub mod Ending
pub mod Stopping
pub mod Requests
pub mod Slots
pub mod Answering
mod Tests
