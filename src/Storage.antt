-- ===== src/Storage.antt =====
-- src/storage_view.cc, include/ctranslate2/storage_view.h: a buffer with a type and a shape.
pub mod Defs
pub mod Shapes
pub mod Operations
pub mod ShapeLaws
pub mod Reshaping
pub mod Validity
pub mod Squeezing
pub mod Kept
pub mod Memory
pub mod Copies
pub mod Places
mod Tests
