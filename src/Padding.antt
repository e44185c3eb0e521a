-- ===== src/Padding.antt =====
-- src/padder.cc and the gather operation of src/ops that it uses.
pub mod Gather
pub mod InPlace
pub mod Padder
pub mod Rows
pub mod RoundTrip
mod Tests
