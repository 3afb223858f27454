-- ===== src/Ai.antt =====
-- The assistant that answers questions about the data (ai/*.py).
pub mod Alerts
pub mod Sql
mod Tests
