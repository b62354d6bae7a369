-- ===== src/Backfill.antt =====
-- src/robot_dh/quality_ops/backfill.py: which runs to repeat, and their repetition.
pub mod Keys
pub mod Candidates
pub mod Plan
pub mod Run
mod Samples
