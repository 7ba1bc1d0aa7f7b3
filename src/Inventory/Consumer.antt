-- ===== src/Inventory/Consumer.antt =====
-- services/inventory-api/internal/eventconsumer/consumer.go: what a message does to the stock.
use pingu_coin.Base.{String, Bool, [], ◌∷◌, ◌++◌, Option, none, some, if◌then◌else◌}
use pingu_coin.Base.Int.{neg64}
use pingu_coin.Base.Text.{◌is◌, ◌<>◌}
use pingu_coin.Base.Store.{
  Result, ok, err, Error, bad_payload, M, pure, throw, ◌>>=◌, ◌>>◌, modify, attempt,
}
use pingu_coin.Flow.{
  topic_inventory_reserved, topic_inventory_rejected, topic_payment_failed, OrderCreated,
  PaymentResult, KafkaRecord, Codec,
}
use pingu_coin.Inventory.Model.{Inventory, InventoryStore}
use pingu_coin.Inventory.Repository.{adjust_context}

-- `ProduceSync`: the broker acknowledges the message, or the call fails.
unfoldable pub produce : KafkaRecord → M InventoryStore (Unit {0})
produce r = modify (λ s. record s { acknowledged = s.acknowledged ++ r ∷ [] })

abbrev pub decrement_key : OrderCreated → String
decrement_key event = event.idempotency_key <> ":inventory"

abbrev pub release_key : OrderCreated → String
release_key event = event.idempotency_key <> ":inventory-release"

unfoldable pub release : Option PaymentResult → M InventoryStore (Unit {0})
unfolding adjust_context ◌>>=◌
release none = throw bad_payload
release (some event) = do
  adjust_context event.order.product_id event.order.quantity "payment compensation"
      (release_key event.order)
  pure tt

module _ (codec : Codec) where
  open codec use {encode_inventory}

  -- The message about an order's stock.
  abbrev pub inventory_message : OrderCreated → String → String → KafkaRecord
  inventory_message event topic reason = record {
    topic = topic;
    key = event.idempotency_key;
    value = encode_inventory (record { order = event; reason = reason });
  }

  unfoldable pub answer_order :
      OrderCreated → Result (Inventory × Bool) → M InventoryStore (Unit {0})
  unfolding produce
  answer_order event (ok _) = produce (inventory_message event topic_inventory_reserved "")
  answer_order event (err Error.insufficient_stock) =
      produce (inventory_message event topic_inventory_rejected "insufficient stock")
  answer_order event (err e) = throw e

  unfoldable pub reserve : Option OrderCreated → M InventoryStore (Unit {0})
  unfolding adjust_context answer_order ◌>>=◌
  reserve none = throw bad_payload
  reserve (some event) = do
    r ← attempt (
        adjust_context event.product_id (neg64 event.quantity) "order stock decrement"
          (decrement_key event))
    answer_order event r

  unfoldable pub handle : KafkaRecord → M InventoryStore (Unit {0})
  unfolding release reserve
  handle r =
      if r.topic is topic_payment_failed
      then release (codec.decode_payment r.value)
      else reserve (codec.decode_order r.value)
