-- ===== src/Bff.antt =====
-- services/bff: the HTTP gateway in front of the services.
pub mod Errors
pub mod Backend
pub mod Repository
pub mod Orders
pub mod Handlers
pub mod Gateway
pub mod Points
pub mod Catalog
pub mod Assets
pub mod Auth
pub mod Shop
pub mod Tests
