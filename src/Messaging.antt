-- ===== src/Messaging.antt =====
-- src/modules/messaging: the transactional outbox with its relay, the inbox that makes the
-- consumers idempotent, and the bounded-retry error handler.
pub mod Outbox
pub mod Inbox
pub mod EventOnce
pub mod Retry
pub mod Relay
