-- ===== src/Lifecycle.antt =====
-- The order and payment lifecycle: app/modules/payments/services/lifecycle_service.py over the rows
-- that it reads and writes.
pub mod Db
pub mod Documents
pub mod Restock
pub mod Status
pub mod Refunds
pub mod Reports
pub mod Disputes
pub mod Transitions
pub mod Run
pub mod Histories
pub mod Once
pub mod Safety
pub mod Confirmed
pub mod Examples
pub mod Guards
pub mod Guarded
pub mod Disputed
