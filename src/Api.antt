-- ===== src/Api.antt =====
-- The service that serves the data (api/*.py).
pub mod Billing
pub mod Queue
mod Tests
