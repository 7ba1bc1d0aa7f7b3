-- ===== src/Media/Model.antt =====
-- services/media-api/internal/model/product_inventory.go and product_inventory_transaction.go. The
-- columns of time are left out.
use pingu_coin.Base.{ℕ, String, List}
use pingu_coin.Base.Int.{ℤ}

pub record ProductInventory : Type 0 where
  pub id : ℕ
  pub product_id : ℕ
  pub quantity : ℤ
  pub reserved : ℤ
  pub version : ℕ

pub record ProductInventoryTransaction : Type 0 where
  pub id : ℕ
  pub product_id : ℕ
  pub amount : ℤ
  pub reason : String
  pub idempotency_key : String
  pub quantity_after : ℤ

-- The two tables, with the sequences of their ids.
pub record MediaStore : Type 0 where
  pub inventories : List ProductInventory
  pub next_inventory : ℕ
  pub transactions : List ProductInventoryTransaction
  pub next_transaction : ℕ
