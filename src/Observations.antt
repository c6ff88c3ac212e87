-- ===== src/Observations.antt =====
-- The move of old issue records in observations.py.
pub mod Migration
pub mod Moves
pub mod Rollback
mod Samples
