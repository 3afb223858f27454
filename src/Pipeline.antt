-- ===== src/Pipeline.antt =====
-- The ingestion pipeline (pipeline/*.py).
pub mod Normalize
pub mod Mapping
pub mod Models
pub mod Checks
pub mod Rows
pub mod Profiles
pub mod Readers
pub mod Engine
pub mod Merge
pub mod MemoryStore
pub mod Tests
