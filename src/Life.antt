-- ===== src/Life.antt =====
-- I year/intro-to-programming/GameOfLife.c: the game of life on a list of cells.
pub mod Cells
pub mod Generation
mod Screen
mod Search
mod Culling
mod Distinct
mod Walk
mod Tests
