-- ===== src/Inventory/Tests.antt =====
-- Runs on a small stock.
use pingu_coin.Base.{[], ◌∷◌, none, some, refl, arith}
use pingu_coin.Base.Int.{pos}
use pingu_coin.Base.Store.Laws.{Leads}
use pingu_coin.Flow.{Codec, OrderCreated}
use pingu_coin.Inventory.Model.{InventoryStore}
use pingu_coin.Inventory.Repository.{adjust_context}
use pingu_coin.Inventory.Stock.{IsStocked}
use pingu_coin.Inventory.Adjustment.{Adjustment, adjust_context-Adjustment}
use pingu_coin.Inventory.Consumer.{reserve}
use pingu_coin.Inventory.Reservation.{Answered, reserve-Answered}

abbrev shelf : InventoryStore
shelf = record {
  inventories =
      record { id = 1; product_id = 3; quantity = pos 5; reserved = pos 0; version = 1 }
      ∷ record { id = 2; product_id = 4; quantity = pos 0; reserved = pos 0; version = 1 }
      ∷ [];
  next_inventory = 3;
  entries = [];
  next_entry = 1;
  acknowledged = [];
}

shelf-IsStocked : IsStocked shelf
shelf-IsStocked = record {
  ids = (refl, (refl, tt));
  counter = omega arith;
  fresh = omega arith;
  covered = (refl, (refl, tt));
}

abbrev order : OrderCreated
order = record {
  order_id = 5;
  user_id = 7;
  product_id = 3;
  quantity = pos 2;
  unit_price = pos 400;
  total_amount = pos 800;
  payment_method = "card";
  currency = "JPY";
  idempotency_key = "k1";
}

abbrev codec : Codec
codec = record {
  encode_order = λ _. "order";
  decode_order = λ _. some order;
  encode_inventory = λ _. "held";
  decode_inventory = λ _. none;
  encode_payment = λ _. "charged";
  decode_payment = λ _. none;
}

adjust_context-Adjustment_example :
    Leads
      (adjust_context 3 (pos 4) "restock" "r1")
      shelf
      (Adjustment 3 (pos 4) "restock" "r1" shelf)
adjust_context-Adjustment_example =
    adjust_context-Adjustment 3 (pos 4) "restock" "r1" shelf shelf-IsStocked

reserve-Answered_example : Leads (reserve codec (some order)) shelf (Answered codec order shelf)
reserve-Answered_example = reserve-Answered codec order shelf shelf-IsStocked
