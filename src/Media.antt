-- ===== src/Media.antt =====
-- services/media-api: the stock of products.
pub mod Model
pub mod Repository
pub mod Server
pub mod Covered
pub mod Adjustment
pub mod Catalog
pub mod Tests
