-- ===== src/Mimpi.antt =====
-- The message passing library of MIMPI/mimpi.c (II year/concurrent-programming): one process, its
-- receiver threads, point-to-point messages and the collective operations.
pub mod Process
pub mod Wire
pub mod Send
pub mod Receive
pub mod Recv
pub mod Ranks
pub mod Collective
pub mod Search
pub mod Sizes
pub mod Chunks
pub mod Outcome
pub mod Pending
pub mod Summary
pub mod Reduction
pub mod Gathering
mod Tests
