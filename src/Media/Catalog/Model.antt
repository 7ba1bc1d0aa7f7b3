-- ===== src/Media/Catalog/Model.antt =====
-- services/media-api/internal/model: the tables beside the stock. The columns of time are left out,
-- but for the date of deletion of the two tables that keep deleted rows, which is a flag.
use pingu_coin.Base.{ℕ, String, List, Bool}
use pingu_coin.Base.Int.{ℤ}

pub record Product : Type 0 where
  pub id : ℕ
  pub user_id : ℕ
  pub category_id : ℕ
  pub name : String
  pub description : String
  pub image_url : String
  pub file_url : String
  pub price : ℤ
  pub status : String
  pub version : ℕ
  pub deleted : Bool

pub record ProductDetail : Type 0 where
  pub id : ℕ
  pub product_id : ℕ
  pub image_url : String
  pub description : String
  pub sort_order : ℤ

pub record User : Type 0 where
  pub id : ℕ
  pub clerk_user_id : String
  pub email : String
  pub name : String
  pub deleted : Bool

pub record ProductAssetPurpose : Type 0 where
  pub id : ℕ
  pub name : String
  pub is_public : Bool

-- `Purpose` is the row that `Preload` joins.
pub record ProductAsset : Type 0 where
  pub id : ℕ
  pub product_id : ℕ
  pub purpose_id : ℕ
  pub purpose : ProductAssetPurpose
  pub storage_url : String
  pub original_filename : String
  pub content_type : String
  pub file_size : ℤ
  pub description : String
  pub sort_order : ℤ
  pub is_primary : Bool
  pub metadata : String

-- A blob: its container and its name.
pub record Blob : Type 0 where
  pub container : String
  pub name : String

-- The tables with the sequences of their ids, and the storage with its containers and blobs.
pub record CatalogStore : Type 0 where
  pub products : List Product
  pub next_product : ℕ
  pub details : List ProductDetail
  pub next_detail : ℕ
  pub users : List User
  pub next_user : ℕ
  pub purposes : List ProductAssetPurpose
  pub assets : List ProductAsset
  pub next_asset : ℕ
  pub containers : List String
  pub blobs : List Blob
