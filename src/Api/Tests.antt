-- ===== src/Api/Tests.antt =====
-- Concrete inputs for the theorems on api/.
mod Billing
mod Queue
