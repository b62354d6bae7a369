-- ===== src/Registry.antt =====
-- registry/: the tables of the registry, its service, and what a client reads after any calls.
pub mod Tables
pub mod Schema
pub mod Records
pub mod Datasets
pub mod Runs
pub mod Service
pub mod Views
mod Samples
