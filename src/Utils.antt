-- ===== src/Utils.antt =====
-- src/utils.cc: splitting and joining of texts.
pub mod Strings
pub mod Tokens
pub mod Affixes
mod Tests
