-- ===== src/Threads.antt =====
-- src/thread_pool.cc and include/ctranslate2/thread_pool.h: the job queue and the worker threads.
pub mod System
pub mod Invariant
pub mod Jobs
pub mod Bound
pub mod Progress
pub mod Closing
pub mod Joining
mod Tests
