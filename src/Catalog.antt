-- ===== src/Catalog.antt =====
-- ai_lab/catalog/: what the names of model files say.
pub mod Naming
pub mod Shards
mod Examples
