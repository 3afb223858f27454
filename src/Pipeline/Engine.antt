-- ===== src/Pipeline/Engine.antt =====
-- `IngestEngine.ingest` of pipeline/ingest.py: one file through parsing, checks, merge and report.
--
-- The rows of a batch are handled one by one and written in groups of FLUSH_ROWS. `Run` is the state
-- of the loop: the store, the report and the three lists that wait. The reader of the file is an
-- argument, with None for its exception; None of a result is an exception that leaves `ingest`.
mod Writing
mod Reading
pub mod Flush
pub mod Upload
pub mod Loading
pub mod Keeps
pub mod Accounts
pub mod Consistent
pub mod Repeat
pub mod Total
pub mod Returns
unfoldable pub use Writing.*
unfoldable pub use Reading.*
