-- ===== src/Api/Billing.antt =====
-- api/billing.py: the plans, the subscription of an organisation, and what it opens.
--
-- The two tables are dictionaries by their primary keys. A moment is a number of microseconds, and
-- `now` is what `now()` and `datetime.now` give. An exception that leaves a function is None.
mod Reading
mod Changes
pub mod Standing
pub mod Choosing
pub mod Activating
pub mod Unpaid
pub mod Access
unfoldable pub use Reading.*
unfoldable pub use Changes.*
