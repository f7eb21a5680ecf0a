-- ===== src/Queue.antt =====
-- II year/concurrent-programming/non-blocking-queues: the queue with two locks.
mod Simple
mod Contents
mod Deleted
mod Tests
