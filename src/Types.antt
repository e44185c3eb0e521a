-- ===== src/Types.antt =====
-- src/types.cc, src/cpu/backend.cc and the enums of include/ctranslate2/types.h: data types,
-- compute types, and the choice of the compute type that a model runs with.
pub mod Defs
pub mod Support
pub mod Resolve
pub mod NamesLaws
pub mod ResolveLaws
pub mod CpuLaws
pub mod Devices
mod Tests
