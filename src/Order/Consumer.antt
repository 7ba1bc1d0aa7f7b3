-- ===== src/Order/Consumer.antt =====
-- services/order-api/internal/eventconsumer/consumer.go: what a message does to its order.
use pingu_coin.Base.{String, Option, none, some, ◌||◌, if◌then◌else◌}
use pingu_coin.Base.Text.{◌is◌}
use pingu_coin.Base.Store.{bad_payload, M, pure, throw}
use pingu_coin.Flow.{
  topic_inventory_reserved, topic_inventory_rejected, topic_payment_succeeded, topic_payment_failed,
  topic_payment_action_required, InventoryResult, PaymentResult, KafkaRecord, Codec,
}
use pingu_coin.Order.Model.{OrderStore}
use pingu_coin.Order.Repository.{
  apply_inventory_result, apply_payment_result, apply_payment_action_required,
}

unfoldable pub handle_inventory : String → Option InventoryResult → M OrderStore (Unit {0})
unfolding apply_inventory_result
handle_inventory topic none = throw bad_payload
handle_inventory topic (some event) =
    apply_inventory_result event.order.order_id (topic is topic_inventory_reserved) event.reason

unfoldable pub handle_payment : String → Option PaymentResult → M OrderStore (Unit {0})
unfolding apply_payment_result apply_payment_action_required
handle_payment topic none = throw bad_payload
handle_payment topic (some event) =
    if topic is topic_payment_action_required
    then apply_payment_action_required event.order.order_id event.payment_id event.action_url
    else apply_payment_result event.order.order_id event.payment_id
        (topic is topic_payment_succeeded) event.reason

module _ (codec : Codec) where
  open codec use {decode_inventory, decode_payment}

  unfoldable pub handle : KafkaRecord → M OrderStore (Unit {0})
  unfolding handle_inventory handle_payment
  handle r =
      if r.topic is topic_inventory_reserved || r.topic is topic_inventory_rejected
      then handle_inventory r.topic (decode_inventory r.value)
      else if r.topic is topic_payment_succeeded
          || r.topic is topic_payment_failed
          || r.topic is topic_payment_action_required
      then handle_payment r.topic (decode_payment r.value)
      else pure tt
