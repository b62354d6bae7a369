-- ===== src/Progress.antt =====
-- progress/: the checkpoints of long tasks, and the check of their heartbeats.
pub mod Stale
pub mod Checkpoint
pub mod Heartbeat
mod Samples
