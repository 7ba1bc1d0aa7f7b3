-- ===== src/Flow.antt =====
-- pkg/orderflow: the topics and the messages that the services exchange.
use pingu_coin.Base.{ℕ, String, Option}
use pingu_coin.Base.Int.{ℤ}

abbrev pub topic_order_created : String
topic_order_created = "orders.created.v1"

abbrev pub topic_inventory_reserved : String
topic_inventory_reserved = "inventory.reserved.v1"

abbrev pub topic_inventory_rejected : String
topic_inventory_rejected = "inventory.rejected.v1"

abbrev pub topic_payment_succeeded : String
topic_payment_succeeded = "payments.succeeded.v1"

abbrev pub topic_payment_failed : String
topic_payment_failed = "payments.failed.v1"

abbrev pub topic_payment_action_required : String
topic_payment_action_required = "payments.action-required.v1"

pub record OrderCreated : Type 0 where
  pub order_id : ℕ
  pub user_id : ℕ
  pub product_id : ℕ
  pub quantity : ℤ
  pub unit_price : ℤ
  pub total_amount : ℤ
  pub payment_method : String
  pub currency : String
  pub idempotency_key : String

-- The embedded `OrderCreated` is the field `order`.
pub record InventoryResult : Type 0 where
  pub order : OrderCreated
  pub reason : String

pub record PaymentResult : Type 0 where
  pub order : OrderCreated
  pub payment_id : ℕ
  pub reason : String
  pub action_url : String

-- A message of the broker.
pub record KafkaRecord : Type 0 where
  pub topic : String
  pub key : String
  pub value : String

-- `json.Marshal` and `json.Unmarshal` at the types of the messages; `none` is a decoding error.
pub record Codec : Type 0 where
  pub encode_order : OrderCreated → String
  pub decode_order : String → Option OrderCreated
  pub encode_inventory : InventoryResult → String
  pub decode_inventory : String → Option InventoryResult
  pub encode_payment : PaymentResult → String
  pub decode_payment : String → Option PaymentResult
