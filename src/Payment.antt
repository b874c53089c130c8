-- ===== src/Payment.antt =====
-- src/modules/payment: the gateway with its idempotency ledger, and the payment consumer.
pub mod Gateway
pub mod Consumer
