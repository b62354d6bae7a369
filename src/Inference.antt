-- ===== src/Inference.antt =====
-- The batch inference of src/robot_dh/inference: batches, retries, failures, and the whole job.
pub mod Schemas
pub mod Batch
pub mod Failures
pub mod Execute
pub mod Metrics
pub mod Records
pub mod Job
mod Samples
