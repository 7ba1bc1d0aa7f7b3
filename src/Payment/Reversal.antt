-- ===== src/Payment/Reversal.antt =====
-- services/payment-api/internal/application/payment_usecase.go: `CancelExternal` and
-- `RefundExternal`.
use pingu_coin.Base.{String, not, if◌then◌else◌}
use pingu_coin.Base.Int.{ℤ}
use pingu_coin.Base.Text.{◌is◌}
use pingu_coin.Base.Store.{provider_failed, M, pure, throw, ◌>>=◌, ◌>>◌, modify, transaction}
use pingu_coin.Flow.{Codec}
use pingu_coin.Payment.Model.{Payment, PaymentStatus, PaymentSource, SourceStatus, PaymentStore}
use pingu_coin.Payment.Provider.{Provider, Posted, posted, failed, cancel_intent, refund_intent}
use pingu_coin.Payment.Rows.{save_payment, save_source, find_source}
use pingu_coin.Payment.Events.{enqueue, order_of}

-- The two rows of a payment that is taken back.
abbrev pub canceled_payment : Payment → Payment
canceled_payment p = record p { status = PaymentStatus.canceled }

abbrev pub canceled_source : PaymentSource → PaymentSource
canceled_source x = record x { status = SourceStatus.canceled; action_url = "" }

abbrev pub demand : Posted → M PaymentStore (Unit {0})
demand (posted _) = pure tt
demand (failed _ _) = throw provider_failed

module _ (codec : Codec) (provider : Provider) where
  unfoldable pub cancel_charge : String → M PaymentStore (Unit {0})
  unfolding cancel_intent ◌>>=◌
  cancel_charge reference = do r ← cancel_intent provider reference; demand r

  unfoldable pub cancel_rows : Payment → PaymentSource → M PaymentStore (Unit {0})
  unfolding save_payment save_source order_of enqueue ◌>>=◌
  cancel_rows payment source = transaction (do
    modify (save_payment (canceled_payment payment))
    modify (save_source (canceled_source source))
    enqueue codec (canceled_payment payment) (order_of codec source) payment.idempotency_key
        "payment canceled")

  unfoldable pub cancel_source : Payment → PaymentSource → M PaymentStore Payment
  unfolding cancel_charge cancel_rows ◌>>=◌
  cancel_source payment source = do
    let call = cancel_charge source.provider_reference
    if not (source.provider_reference is "") then call else pure tt
    cancel_rows payment source
    pure (canceled_payment payment)

  -- `CancelExternal`; the payment that it is given is changed in place, which is its answer here.
  unfoldable pub cancel_external : Payment → M PaymentStore Payment
  unfolding find_source cancel_source ◌>>=◌
  cancel_external payment = do source ← find_source payment.id; cancel_source payment source

module _ (provider : Provider) where
  -- `RefundExternal`
  unfoldable pub refund_external : Payment → ℤ → String → M PaymentStore (Unit {0})
  unfolding find_source refund_intent ◌>>=◌
  refund_external payment amount key = do
    source ← find_source payment.id
    r ← refund_intent provider (record {
      payment_intent_id = source.provider_reference;
      amount = amount;
      idempotency_key = key;
    })
    demand r
