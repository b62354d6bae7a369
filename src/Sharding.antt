-- ===== src/Sharding.antt =====
-- The sharded ETL of src/robot_dh/sharding: a plan, the packing of its datasets into shards, the
-- run of one shard and the merge of the summaries.
pub mod Model
pub mod Planner
pub mod Plan
pub mod Perf
pub mod Runner
pub mod Merge
mod Samples
