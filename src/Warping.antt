-- ===== src/Warping.antt =====
-- src/dtw.cc: alignment by dynamic time warping.
pub mod Defs
pub mod Tables
pub mod Paths
mod Tests
