-- ===== src/Payment/Events.antt =====
-- services/payment-api/internal/application/payment_usecase.go: the outbox events of a payment,
-- and `HandleProviderEvent`.
use pingu_coin.Base.{
  ℕ, String, List, Bool, true, false, not, ◌&&◌, ◌||◌, Option, none, some, if◌then◌else◌,
}
use pingu_coin.Base.Text.{◌is◌, ◌<>◌, decimal}
use pingu_coin.Base.Store.{
  invalid_event, M, pure, throw, ◌>>=◌, ◌>>◌, statement, modify, transaction,
}
use pingu_coin.Flow.{
  OrderCreated, PaymentResult, Codec, topic_payment_succeeded, topic_payment_failed,
}
use pingu_coin.Payment.Model.{
  Payment, PaymentStatus, PaymentSource, SourceStatus, PaymentStore, purpose_point_topup,
  kind_credit,
}
use pingu_coin.Payment.Points.{adjust}
use pingu_coin.Payment.Rows.{
  find_payment, find_by_reference, save_payment, save_source, insert_outbox, insert_receipt,
}

abbrev pub is_processing : PaymentStatus → Bool
is_processing PaymentStatus.processing = true
is_processing _ = false

abbrev pub has_failed : PaymentStatus → Bool
has_failed PaymentStatus.failed = true
has_failed _ = false

-- The topic that `enqueue` chooses.
unfoldable pub result_topic : Payment → String → String
result_topic payment reason =
    if not (reason is "") || has_failed payment.status
    then topic_payment_failed
    else topic_payment_succeeded

-- The event that a webhook carries: `Data` is a charge, of which its id is read.
pub record ProviderEvent : Type 0 where
  pub id : String
  pub type : String
  pub charge_id : String

module _ (codec : Codec) where
  open codec use {decode_order, encode_payment}

  -- The order that a source was made for, if any.
  unfoldable pub order_of : PaymentSource → Option OrderCreated
  order_of source =
      if not (source.order_payload is "") && not (source.order_payload is "{}")
      then decode_order source.order_payload
      else none

  -- `enqueue`
  unfoldable pub enqueue :
      Payment → Option OrderCreated → String → String → M PaymentStore (Unit {0})
  unfolding result_topic insert_outbox
  enqueue payment none key reason = pure tt
  enqueue payment (some order) key reason =
      let event : PaymentResult = record {
        order = order;
        payment_id = payment.id;
        reason = reason;
        action_url = "";
      } in
      modify (insert_outbox payment.id (result_topic payment reason) key (encode_payment event))

module _ (sha256 : List ℕ → List ℕ) where
  -- The points of a top-up are credited, where the payment is one.
  unfoldable pub top_up : Payment → M PaymentStore (Unit {0})
  unfolding adjust ◌>>=◌
  top_up payment = do
    let credit =
        adjust sha256 payment.user_id payment.amount kind_credit
          ("point top-up #" <> decimal payment.id) (some payment.id)
    let credited = (do credit; pure tt)
    if payment.purpose is purpose_point_topup then credited else pure tt

-- The two rows behind an event.
abbrev pub succeeded_payment : Payment → Payment
succeeded_payment p = record p { status = PaymentStatus.succeeded }

abbrev pub captured_source : PaymentSource → PaymentSource
captured_source x = record x { status = SourceStatus.captured; action_url = "" }

abbrev pub is_canceled : String → Bool
is_canceled type = type is "payment_intent.canceled"

abbrev pub closed_payment : String → Payment → Payment
closed_payment type p = record p {
  status = if is_canceled type then PaymentStatus.canceled else PaymentStatus.failed;
}

abbrev pub closed_source : String → PaymentSource → PaymentSource
closed_source type x = record x {
  status = if is_canceled type then SourceStatus.canceled else SourceStatus.failed;
  action_url = "";
  failure_reason = type;
}

module _ (sha256 : List ℕ → List ℕ) (codec : Codec) where
  unfoldable pub apply_success : Payment → PaymentSource → M PaymentStore (Unit {0})
  unfolding save_payment save_source top_up order_of enqueue ◌>>=◌
  apply_success payment source = do
    modify (save_payment (succeeded_payment payment))
    modify (save_source (captured_source source))
    top_up sha256 payment
    enqueue codec (succeeded_payment payment) (order_of codec source) payment.idempotency_key ""

  unfoldable pub apply_failure : String → Payment → PaymentSource → M PaymentStore (Unit {0})
  unfolding save_payment save_source order_of enqueue ◌>>=◌
  apply_failure type payment source = do
    modify (save_payment (closed_payment type payment))
    modify (save_source (closed_source type source))
    enqueue codec (closed_payment type payment) (order_of codec source) payment.idempotency_key type

  unfoldable pub apply_event : String → Payment → PaymentSource → M PaymentStore (Unit {0})
  unfolding apply_success apply_failure
  apply_event type payment source =
      if type is "payment_intent.succeeded"
      then apply_success payment source
      else if (type is "payment_intent.failed") || is_canceled type
      then apply_failure type payment source
      else throw invalid_event

  -- What the transaction does once the receipt is, or is not, new.
  unfoldable pub receive : String → Payment → PaymentSource → Bool → M PaymentStore (Unit {0})
  unfolding apply_event
  receive type payment source fresh =
      if fresh && is_processing payment.status then apply_event type payment source else pure tt

  unfoldable pub settle_event : ProviderEvent → PaymentSource → Payment → M PaymentStore (Unit {0})
  unfolding insert_receipt receive ◌>>=◌
  settle_event event source payment = transaction (do
    fresh ← statement (insert_receipt source.provider event.id)
    receive event.type payment source fresh)

  unfoldable pub settle_source : ProviderEvent → PaymentSource → M PaymentStore (Unit {0})
  unfolding find_payment settle_event ◌>>=◌
  settle_source event source = do
    payment ← find_payment source.payment_id
    settle_event event source payment

  -- `HandleProviderEvent`
  unfoldable pub handle_provider_event : ProviderEvent → M PaymentStore (Unit {0})
  unfolding find_by_reference settle_source ◌>>=◌
  handle_provider_event event = do
    if not ((event.id is "") || (event.charge_id is "")) then pure tt else throw invalid_event
    source ← find_by_reference event.charge_id
    settle_source event source
