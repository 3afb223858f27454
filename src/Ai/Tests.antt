-- ===== src/Ai/Tests.antt =====
-- Concrete queries for the theorems on ai/.
mod Queries
mod Alerts
mod Scopes
