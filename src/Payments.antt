-- ===== src/Payments.antt =====
-- Payments of orders: app/modules/payments/services/payment_service.py, the webhooks that it handles,
-- the recovery of deferred events in app/modules/payments/jobs.py and the choice of a provider in
-- provider_resolver.py.
pub mod Rows
pub mod Events
pub mod Webhooks
pub mod Recovery
pub mod History
pub mod Claims
pub mod Untouched
pub mod Delivery
pub mod Paid
pub mod Counted
pub mod Bounded
pub mod Verified
pub mod Start
pub mod Started
pub mod Examples
