-- ===== src/Pipeline/Normalize.antt =====
-- pipeline/normalize.py: a raw cell becomes a canonical value.
pub mod Runtime
pub mod Text
pub mod Money
pub mod Dates
pub mod Keys
