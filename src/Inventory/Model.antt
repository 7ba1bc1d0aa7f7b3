-- ===== src/Inventory/Model.antt =====
-- services/inventory-api/internal/model/inventory.go. The columns of time are left out.
use pingu_coin.Base.{ℕ, String, List}
use pingu_coin.Base.Int.{ℤ, pos}
use pingu_coin.Flow.{KafkaRecord}

abbrev pub default_digital_stock : ℤ
default_digital_stock = pos 1000000

pub record Inventory : Type 0 where
  pub id : ℕ
  pub product_id : ℕ
  pub quantity : ℤ
  pub reserved : ℤ
  pub version : ℕ

pub record Transaction : Type 0 where
  pub id : ℕ
  pub product_id : ℕ
  pub amount : ℤ
  pub reason : String
  pub idempotency_key : String
  pub quantity_after : ℤ

-- The two tables with the sequences of their ids, and the messages that the broker has
-- acknowledged.
pub record InventoryStore : Type 0 where
  pub inventories : List Inventory
  pub next_inventory : ℕ
  pub entries : List Transaction
  pub next_entry : ℕ
  pub acknowledged : List KafkaRecord
