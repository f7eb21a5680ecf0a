-- ===== src/SameGame.antt =====
-- I year/intro-to-programming/SameGame.c: a move of the game on a board of coloured blocks.
mod Board
mod Move
mod Erase
mod Gravity
mod Group
mod Tests
