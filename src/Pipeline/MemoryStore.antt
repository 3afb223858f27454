-- ===== src/Pipeline/MemoryStore.antt =====
-- `MemoryStore` of pipeline/ingest.py, the reference implementation of the store contract.
--
-- A method returns the new store beside its result. Records are mutated in place in the source,
-- and no other object holds them: here the changed record is written back under its key.
-- `uuid4()` is the argument `fresh`.
mod State
mod Register
mod Guides
mod Payments
mod Orphans
mod Many
pub mod Batches
pub mod Shipments
pub mod Movements
pub mod Invariant
pub mod Relinking
pub mod Groups
pub mod Known
unfoldable pub use State.*
unfoldable pub use Register.*
unfoldable pub use Guides.*
unfoldable pub use Payments.*
unfoldable pub use Orphans.*
unfoldable pub use Many.*
