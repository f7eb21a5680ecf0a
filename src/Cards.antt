-- ===== src/Cards.antt =====
-- II year/computer-networks/project2: the rules of the card game.
mod Card
mod Trick
mod Deal
mod Points
mod Whole
mod Player
mod Legal
mod Tests
