-- ===== src/Hazard.antt =====
-- II year/concurrent-programming/non-blocking-queues/HazardPointer.c: pointers that no thread may free.
mod Pointers
mod Retired
mod Tests
