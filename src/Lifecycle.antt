-- ===== src/Lifecycle.antt =====
-- The order lifecycle across the whole pipeline: every entry point of the services and consumers,
-- and what any sequence of them does to the orders.
pub mod Services
pub mod Reads
pub mod Lists
pub mod Carts
pub mod Calls
pub mod System
pub mod Cached
pub mod Deliveries
pub mod Consumers
pub mod Fulfilment
