-- ===== src/Payment/Create.antt =====
-- services/payment-api/internal/application/payment_usecase.go: `Create`; and
-- services/payment-api/internal/eventconsumer/consumer.go: the handler of one message.
pub mod Replay
pub mod Backed
use pingu_coin.Base.{
  ℕ, String, List, Bool, true, false, not, ◌&&◌, Option, none, some, ◌==◌, if◌then◌else◌,
}
use pingu_coin.Base.Int.{ℤ, pos, ltb_ℤ}
use pingu_coin.Base.Text.{◌is◌, trim_space}
use pingu_coin.Base.Store.{
  Result, ok, err, Error, bad_payload, M, pure, throw, lift, ◌>>=◌, ◌>>◌, attempt,
}
use pingu_coin.Flow.{Codec, OrderCreated, InventoryResult, KafkaRecord}
use pingu_coin.Payment.Model.{Payment, PaymentStore, method_point, purpose_purchase}
use pingu_coin.Payment.Provider.{Provider}
use pingu_coin.Payment.Rows.{find_by_key}
use pingu_coin.Payment.Command.{
  CreatePaymentCommand, CreatePaymentResult, Rejection, unsupported_method, validate, is_external,
}
use pingu_coin.Payment.PointPayment.{replay, record_rejected, create_point}
use pingu_coin.Payment.External.{create_stripe}

abbrev pub trimmed : CreatePaymentCommand → CreatePaymentCommand
trimmed c = record c {
  currency = trim_space c.currency;
  payment_method = trim_space c.payment_method;
  idempotency_key = trim_space c.idempotency_key;
  purpose = if c.purpose is "" then purpose_purchase else c.purpose;
}

abbrev pub has_order : CreatePaymentCommand → Bool
has_order c = elim c.order as (λ _. Bool) [ none ↦ false | some _ ↦ true ]

-- The rejection of an order can be stored.
abbrev pub is_recordable : CreatePaymentCommand → Bool
is_recordable c =
    has_order c
    && not (c.user_id == 0)
    && not (c.product_id == 0)
    && ltb_ℤ (pos 0) c.amount
    && not (c.idempotency_key is "")

abbrev pub rejected_result : Option Payment → Rejection → CreatePaymentResult
rejected_result payment reason = record {
  payment = payment;
  replayed = false;
  rejected = some reason;
  action_url = "";
}

module _ (codec : Codec) where
  unfoldable pub record_invalid :
      CreatePaymentCommand → Rejection → M PaymentStore CreatePaymentResult
  unfolding record_rejected ◌>>=◌
  record_invalid c reason = do
    (payment, stored) ← record_rejected codec c reason
    lift stored
    pure (rejected_result (some payment) reason)

  unfoldable pub reject_invalid :
      CreatePaymentCommand → Rejection → M PaymentStore CreatePaymentResult
  unfolding record_invalid
  reject_invalid c reason =
      if is_recordable c then record_invalid c reason else pure (rejected_result none reason)

  unfoldable pub record_unsupported :
      CreatePaymentCommand → Rejection → M PaymentStore CreatePaymentResult
  unfolding record_rejected ◌>>=◌
  record_unsupported c reason = do
    (payment, _) ← record_rejected codec c reason
    pure (rejected_result (some payment) reason)

  unfoldable pub reject_unsupported : CreatePaymentCommand → M PaymentStore CreatePaymentResult
  unfolding record_unsupported
  reject_unsupported c =
      let reason = unsupported_method c.payment_method in
      if has_order c then record_unsupported c reason else pure (rejected_result none reason)

module _ (sha256 : List ℕ → List ℕ) (codec : Codec) (provider : Provider) (return_url : String)
    (now : ℕ) where
  unfoldable pub dispatch : CreatePaymentCommand → M PaymentStore CreatePaymentResult
  unfolding create_point create_stripe reject_unsupported
  dispatch c =
      if c.payment_method is method_point
      then create_point sha256 codec c
      else if is_external c.payment_method
      then create_stripe sha256 codec provider return_url c now
      else reject_unsupported codec c

  unfoldable pub create_found :
      CreatePaymentCommand → Result Payment → M PaymentStore CreatePaymentResult
  unfolding dispatch replay
  create_found c (ok existing) = replay existing
  create_found c (err Error.record_not_found) = dispatch c
  create_found c (err e) = throw e

  unfoldable pub create_valid : CreatePaymentCommand → M PaymentStore CreatePaymentResult
  unfolding find_by_key create_found ◌>>=◌
  create_valid c = do existing ← attempt (find_by_key c.idempotency_key); create_found c existing

  unfoldable pub create_checked :
      CreatePaymentCommand → Option Rejection → M PaymentStore CreatePaymentResult
  unfolding reject_invalid create_valid
  create_checked c (some reason) = reject_invalid codec c reason
  create_checked c none = create_valid c

  -- `Create`
  unfoldable pub create_payment : CreatePaymentCommand → M PaymentStore CreatePaymentResult
  unfolding create_checked validate trim_space
  create_payment c = let c' = trimmed c in create_checked c' (validate c')

  -- What the consumer asks for.
  abbrev pub command_of : OrderCreated → CreatePaymentCommand
  command_of order = record {
    user_id = order.user_id;
    product_id = order.product_id;
    amount = order.total_amount;
    currency = order.currency;
    payment_method = order.payment_method;
    idempotency_key = order.idempotency_key;
    order = some order;
    purpose = "";
  }

  unfoldable pub pay_order : Option InventoryResult → M PaymentStore (Unit {0})
  unfolding create_payment ◌>>=◌
  pay_order none = throw bad_payload
  pay_order (some reserved) = do create_payment (command_of reserved.order); pure tt

  -- `handle`
  unfoldable pub handle : KafkaRecord → M PaymentStore (Unit {0})
  unfolding pay_order
  handle message = pay_order (codec.decode_inventory message.value)
