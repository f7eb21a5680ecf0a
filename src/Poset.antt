-- ===== src/Poset.antt =====
-- II year/cpp-course/project2/poset.cc: finite partial orders with named elements.
mod Matrix
mod Messages
mod State
mod Operations
mod Order
mod Columns
mod Closure
mod Removal
mod Names
mod Writes
mod Contract
mod Covers
mod Ids
mod Runs
mod Debug
mod Tests
