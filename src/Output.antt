-- ===== src/Output.antt =====
-- src/layers/decoder.cc: the ids of an output layer that gives a part of the vocabulary.
pub mod Defs
pub mod RoundTrip
mod Tests
