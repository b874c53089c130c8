-- ===== src/Orders.antt =====
-- src/modules/orders: the order state machine, and the service that creates, reads, advances,
-- pays and cancels orders.
pub mod StateMachine
pub mod Rows
pub mod Evolution
pub mod Evolving
pub mod Coherence
pub mod Reading
pub mod Creation
pub mod Transition
pub mod PaymentClaim
pub mod Cancellation
pub mod Races
