-- ===== src/ModelStore.antt =====
-- src/model_store.py and the model part of src/models.py: a catalog of model versions in SQLite
-- tables, and their artifacts in files named by digest.
-- Lists stand in insertion order, so that `ORDER BY id` over activation records keeps them as they are.
pub mod Schema
pub mod Register
pub mod Reads
pub mod Activate
pub mod Invariant
pub mod Steps
pub mod Versions
pub mod Service
mod Tests
