-- ===== src/Payment/External.antt =====
-- services/payment-api/internal/application/payment_usecase.go: payments through the provider.
pub mod Kept
use pingu_coin.Base.{ℕ, String, List, Bool, true, false, not, Option, none, some, if◌then◌else◌}
use pingu_coin.Base.Int.{ℤ}
use pingu_coin.Base.Text.{◌is◌, ◌<>◌, trim_suffix}
use pingu_coin.Base.Store.{
  Result, ok, err, Error, provider_failed, M, pure, throw, ◌>>=◌, ◌>>◌, statement, modify,
  transaction, attempt,
}
use pingu_coin.Flow.{Codec, OrderCreated, PaymentResult, topic_payment_action_required}
use pingu_coin.Payment.Calls.{ChargeRequest, ChargeResult}
use pingu_coin.Payment.Model.{
  Payment, PaymentStatus, PaymentSource, SourceStatus, PaymentStore, purpose_point_topup,
}
use pingu_coin.Payment.Provider.{
  Provider, Posted, posted, failed, charge, cancel_intent, refund_intent,
}
use pingu_coin.Payment.Rows.{
  insert_payment, insert_source, insert_outbox, save_payment, save_source, find_by_key, find_source,
}
use pingu_coin.Payment.Command.{
  CreatePaymentCommand, CreatePaymentResult, Rejection, provider_unavailable, rejection_text,
  new_payment,
}
use pingu_coin.Payment.Events.{enqueue, top_up, order_of, succeeded_payment}
use pingu_coin.Payment.PointPayment.{replay_or}

abbrev pub failed_payment : Payment → Payment
failed_payment p = record p { status = PaymentStatus.failed }

abbrev pub failed_source : String → PaymentSource → PaymentSource
failed_source reason x = record x { status = SourceStatus.failed; failure_reason = reason }

abbrev pub charged_source : String → PaymentSource → PaymentSource
charged_source reference x = record x {
  status = SourceStatus.captured;
  provider_reference = reference;
}

abbrev pub awaiting_source : ChargeResult → PaymentSource → PaymentSource
awaiting_source r x = record x {
  status = SourceStatus.authorized;
  provider_reference = r.id;
  action_url = r.action_url;
}

-- A payment that a customer asked for and that has been answered.
abbrev pub fresh_result : Payment → Option Rejection → String → CreatePaymentResult
fresh_result payment rejected url = record {
  payment = some payment;
  replayed = false;
  rejected = rejected;
  action_url = url;
}

module _ (codec : Codec) where
  open codec use {encode_order, encode_payment}

  abbrev pub order_payload : Option OrderCreated → String
  order_payload none = "{}"
  order_payload (some order) = encode_order order

  -- The source that `createStripe` makes at the time `now`.
  abbrev pub new_source : CreatePaymentCommand → ℕ → PaymentSource
  new_source c now = record {
    id = 0;
    payment_id = 0;
    provider = "stripe";
    provider_reference = "";
    status = SourceStatus.pending;
    failure_reason = "";
    action_url = "";
    order_payload = order_payload c.order;
    created_at = now;
  }

  unfoldable pub attach_source :
      CreatePaymentCommand → ℕ → Payment → M PaymentStore (Payment × PaymentSource)
  unfolding insert_source ◌>>=◌
  attach_source c now payment = do
    source ← statement (insert_source (record (new_source c now) { payment_id = payment.id }))
    pure (payment, source)

  unfoldable pub open_external : CreatePaymentCommand → ℕ → M PaymentStore (Payment × PaymentSource)
  unfolding insert_payment attach_source ◌>>=◌
  open_external c now = transaction (do
    payment ← statement (insert_payment (new_payment c PaymentStatus.processing))
    attach_source c now payment)

  -- `enqueueActionRequired`
  unfoldable pub enqueue_action_required :
      Payment → Option OrderCreated → String → String → M PaymentStore (Unit {0})
  unfolding insert_outbox
  enqueue_action_required payment none key url = pure tt
  enqueue_action_required payment (some order) key url =
      let event : PaymentResult = record {
        order = order;
        payment_id = payment.id;
        reason = "";
        action_url = url;
      } in
      modify (insert_outbox payment.id topic_payment_action_required key (encode_payment event))

  -- The provider refuses for good: payment, source and event are written together.
  unfoldable pub store_failure :
      Option OrderCreated → String → Payment → PaymentSource → M PaymentStore (Unit {0})
  unfolding save_payment save_source enqueue ◌>>=◌
  store_failure order reason payment source = transaction (do
    modify (save_payment (failed_payment payment))
    modify (save_source (failed_source reason source))
    enqueue codec (failed_payment payment) order payment.idempotency_key reason)

  unfoldable pub refuse_charge :
      CreatePaymentCommand → String → Payment → PaymentSource → M PaymentStore CreatePaymentResult
  unfolding store_failure rejection_text ◌>>=◌
  refuse_charge c text payment source = do
    let rejected = provider_unavailable text
    store_failure c.order (rejection_text rejected) payment source
    pure (fresh_result (failed_payment payment) (some rejected) "")

  -- The customer has to act: the address is stored and announced.
  unfoldable pub await_action :
      CreatePaymentCommand
      → ChargeResult
      → Payment
      → PaymentSource
      → M PaymentStore CreatePaymentResult
  unfolding save_source enqueue_action_required ◌>>=◌
  await_action c charged payment source = do
    transaction (do
      modify (save_source (awaiting_source charged source))
      enqueue_action_required payment c.order c.idempotency_key charged.action_url)
    pure (fresh_result payment none charged.action_url)

module _ (sha256 : List ℕ → List ℕ) (codec : Codec) (provider : Provider) where
  -- The money has been taken: payment, source, points of a top-up and event are written together.
  unfoldable pub store_capture :
      Option OrderCreated → String → Payment → PaymentSource → M PaymentStore (Unit {0})
  unfolding save_payment save_source top_up enqueue ◌>>=◌
  store_capture order reference payment source = transaction (do
    modify (save_payment (succeeded_payment payment))
    modify (save_source (charged_source reference source))
    top_up sha256 payment
    enqueue codec (succeeded_payment payment) order payment.idempotency_key "")

  -- Where the money was taken and cannot be written down, the charge is taken back.
  unfoldable pub or_cancel : String → Result (Unit {0}) → M PaymentStore (Unit {0})
  unfolding cancel_intent ◌>>=◌
  or_cancel reference (ok _) = pure tt
  or_cancel reference (err e) = do cancel_intent provider reference; throw e

  unfoldable pub capture_charge :
      Option OrderCreated → String → Payment → PaymentSource → M PaymentStore (Unit {0})
  unfolding store_capture or_cancel ◌>>=◌
  capture_charge order reference payment source = do
    r ← attempt (store_capture order reference payment source)
    or_cancel reference r

  unfoldable pub capture_new :
      CreatePaymentCommand → String → Payment → PaymentSource → M PaymentStore CreatePaymentResult
  unfolding capture_charge ◌>>=◌
  capture_new c reference payment source = do
    capture_charge c.order reference payment source
    pure (fresh_result (succeeded_payment payment) none "")

  -- `createStripe` behind the answer of the provider.
  unfoldable pub charge_answered :
      CreatePaymentCommand → Payment → PaymentSource → Posted → M PaymentStore CreatePaymentResult
  unfolding refuse_charge await_action capture_new
  charge_answered c payment source (failed permanent text) =
      if permanent then refuse_charge codec c text payment source else throw provider_failed
  charge_answered c payment source (posted charged) =
      if charged.status is "requires_action"
      then await_action codec c charged payment source
      else capture_new c charged.id payment source

  module _ (return_url : String) where
    abbrev pub return_url_for : String → String
    return_url_for purpose =
        if purpose is purpose_point_topup
        then trim_suffix return_url "/purchases" <> "/points"
        else return_url

    abbrev pub charge_request : CreatePaymentCommand → ChargeRequest
    charge_request c = record {
      amount = c.amount;
      currency = c.currency;
      idempotency_key = c.idempotency_key;
      return_url = return_url_for c.purpose;
      payment_method = c.payment_method;
    }

    -- `createStripe` once its rows are, or are not, stored.
    unfoldable pub charge_opened :
        CreatePaymentCommand → Result (Payment × PaymentSource) → M PaymentStore CreatePaymentResult
    unfolding trim_suffix charge charge_answered find_by_key replay_or ◌>>=◌
    charge_opened c (ok (payment, source)) = do
      charged ← charge provider (charge_request c)
      charge_answered c payment source charged
    charge_opened c (err e) = do
      existing ← attempt (find_by_key c.idempotency_key)
      replay_or sha256 codec e existing

    -- `createStripe`
    unfoldable pub create_stripe : CreatePaymentCommand → ℕ → M PaymentStore CreatePaymentResult
    unfolding open_external charge_opened ◌>>=◌
    create_stripe c now = do r ← attempt (open_external codec c now); charge_opened c r
