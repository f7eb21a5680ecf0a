-- ===== src/Crosswords.antt =====
-- II year/cpp-course/project3/crosswords.h: words on a board without bounds.
mod Area
mod Areas
mod Word
mod Board
mod Crossword
mod Cells
mod Written
mod Valid
mod Runs
mod Bounds
mod Print
mod Printed
mod Tests
