-- ===== src/Tests.antt =====
-- Runs of the definitions and instances of the theorems at concrete digests and slices.
mod Windows
mod Loops
mod Batches
mod Readers
mod Bozos
mod Chunks
mod Splits
mod Departures
mod Adlers
mod Gears
mod Buzhashes
mod Rabins
