-- ===== src/Ai/Sql.antt =====
-- The guard of generated SQL: `validate_sql` of ai/nl2sql.py.
pub mod Lists
pub mod Scans
pub mod Fence
pub mod Parser
pub mod Guard
pub mod Safe
pub mod Answers
pub mod Vetted
pub mod Accepted
pub mod Views
pub mod Bounded
pub mod Scope
pub mod Reached
