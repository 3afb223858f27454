-- ===== src/Api/Queue.antt =====
-- The queue of uploads: `_process`, `_resolve_country`, `_country_from_file`, `_fail` and `_announce`
-- of api/ingest_queue.py, on the tables that they read and write.
mod State
mod Country
mod Steps
pub mod Processed
pub mod Taken
pub mod Undetermined
pub mod Copies
pub mod Loads
unfoldable pub use State.*
unfoldable pub use Country.*
unfoldable pub use Steps.*
