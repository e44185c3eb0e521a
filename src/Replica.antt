-- ===== src/Replica.antt =====
-- include/ctranslate2/replica_pool.h: the jobs that a pool of model replicas is given, the promises
-- that they fulfil, and the results that are written as they come.
pub mod Defs
pub mod Posting
pub mod Workers
pub mod Consuming
pub mod Settling
pub mod Moves
pub mod Places
pub mod Schedules
pub mod Answers
pub mod InOrder
pub mod Writing
pub mod Reloading
mod Tests
