-- ===== src/Media/Catalog.antt =====
-- services/media-api: products with their images and files, assets and users.
pub mod Model
pub mod Storage
pub mod Repository
pub mod Products
pub mod Uploads
pub mod Assets
pub mod Users
pub mod Tests
