-- ===== src/Order/Model.antt =====
-- services/order-api/internal/model/order.go. The columns of time are left out.
use pingu_coin.Base.{ℕ, String, List, Bool}
use pingu_coin.Flow.{KafkaRecord}
use pingu_coin.Base.Int.{ℤ}

-- The texts that the code writes to the column `status`, or tests it for.
pub data OrderStatus : Type 0 where
  pending inventory_pending payment_pending payment_action_required paid failed processing :
      OrderStatus

pub OrderStatus-discrete : Discrete OrderStatus
OrderStatus-discrete = hlevel

pub record Order : Type 0 where
  pub id : ℕ
  pub user_id : ℕ
  pub product_id : ℕ
  pub quantity : ℤ
  pub unit_price : ℤ
  pub total_amount : ℤ
  pub payment_id : ℕ
  pub payment_method : String
  pub currency : String
  pub action_url : String
  pub status : OrderStatus
  pub idempotency_key : String
  pub failure_reason : String

pub record OutboxEvent : Type 0 where
  pub id : ℕ
  pub aggregate_id : ℕ
  pub topic : String
  pub event_key : String
  pub payload : String
  pub published : Bool
  pub attempts : ℕ
  pub last_error : String

-- The tables `orders` and `order_outbox`, each with the sequence of its ids.
pub record OrderStore : Type 0 where
  pub orders : List Order
  pub next_order : ℕ
  pub outbox : List OutboxEvent
  pub next_event : ℕ
  -- The messages that the broker has acknowledged.
  pub acknowledged : List KafkaRecord
