-- ===== src/Parking.antt =====
-- II year/cpp-course/project1/parking.cc: a parking meter.
mod Meter
mod Timeline
mod Tracks
mod Answers
mod Tests
