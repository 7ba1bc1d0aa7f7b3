-- ===== src/Inventory.antt =====
-- services/inventory-api: the stock of products, adjusted once for each key.
pub mod Model
pub mod Repository
pub mod Stock
pub mod Adjustment
pub mod Consumer
pub mod Server
pub mod Reservation
pub mod Tests
