-- ===== src/Order.antt =====
-- services/order-api: the orders, their outbox, and what events do to them.
pub mod Outbox
pub mod Model
pub mod Repository
pub mod Server
pub mod Consumer
pub mod Lifecycle
pub mod Delivery
pub mod Creation
pub mod Checks
pub mod Invariant
mod Tests
