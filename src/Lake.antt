-- ===== src/Lake.antt =====
-- lake/: the addresses of the data lake.
pub mod Uri
mod Samples
