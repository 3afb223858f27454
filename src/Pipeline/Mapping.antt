-- ===== src/Pipeline/Mapping.antt =====
-- pipeline/mapping.py: column and status dictionaries.
pub mod Status
pub mod Aliases
pub mod Resolve
pub mod Movements
pub mod Columns
pub mod Headers
