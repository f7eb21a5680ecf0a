-- ===== src/Seq.antt =====
-- The sequence library of project1/seq.c (I year/computer-architecture-and-operating-systems):
-- a tree of ternary sequences whose nodes share named, reference-counted equivalence classes.
pub mod Node
pub mod Env
pub mod Walk
pub mod Add
pub mod Remove
pub mod Query
pub mod Equiv
pub mod Refs
pub mod Contract
pub mod Naming
mod Tests
