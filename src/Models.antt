-- ===== src/Models.antt =====
-- models/: the registry of the models.
pub mod Schemas
pub mod Registry
pub mod ReadBack
mod Samples
