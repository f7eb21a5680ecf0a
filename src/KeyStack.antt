-- ===== src/KeyStack.antt =====
-- II year/cpp-course/project4/stack.h: a stack whose elements have keys.
mod Keys
mod Inner
mod Contents
mod Readers
mod Heights
mod Shared
mod Effects
mod Sharing
mod Copies
mod Tests
