-- ===== src/Partition.antt =====
-- partition/: a dataset cut into partitions of about one size.
pub mod Family
pub mod Planner
pub mod Laws
pub mod Contents
mod Samples
