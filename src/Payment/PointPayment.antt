-- ===== src/Payment/PointPayment.antt =====
-- services/payment-api/internal/application/payment_usecase.go: the answer to a repeated request,
-- the record of a rejection, and a payment with points.
use pingu_coin.Base.{ℕ, String, List, Bool, true, false, Option, none, some}
use pingu_coin.Base.Int.{neg64}
use pingu_coin.Base.Text.{◌<>◌, decimal}
use pingu_coin.Base.Store.{
  Result, ok, err, Error, M, pure, throw, ◌>>=◌, ◌>>◌, statement, boundary, transaction, attempt,
}
use pingu_coin.Flow.{Codec, OrderCreated}
use pingu_coin.Payment.Model.{Payment, PaymentStatus, PaymentSource, PaymentStore, kind_payment}
use pingu_coin.Payment.Points.{adjust}
use pingu_coin.Payment.Rows.{insert_payment, find_by_key, find_source}
use pingu_coin.Payment.Command.{
  CreatePaymentCommand, CreatePaymentResult, Rejection, few_points, previously_failed,
  rejection_text, new_payment,
}
use pingu_coin.Payment.Events.{enqueue, has_failed}

abbrev pub replay_rejection : Bool → Option Rejection
replay_rejection true = some previously_failed
replay_rejection false = none

abbrev pub url_of : Result PaymentSource → String
url_of (ok source) = source.action_url
url_of (err _) = ""

abbrev pub replay_result : Payment → Result PaymentSource → CreatePaymentResult
replay_result payment source = record {
  payment = some payment;
  replayed = true;
  rejected = replay_rejection (has_failed payment.status);
  action_url = url_of source;
}

-- `replay`: the payment that is there, with the address of its source if one is found.
unfoldable pub replay : Payment → M PaymentStore CreatePaymentResult
unfolding find_source ◌>>=◌
replay payment = do source ← attempt (find_source payment.id); pure (replay_result payment source)

module _ (codec : Codec) where
  unfoldable pub store_rejected : CreatePaymentCommand → Rejection → M PaymentStore Payment
  unfolding insert_payment enqueue rejection_text ◌>>=◌
  store_rejected c reason = transaction (do
    payment ← statement (insert_payment (new_payment c PaymentStatus.failed))
    enqueue codec payment c.order c.idempotency_key (rejection_text reason)
    pure payment)

  -- `Create` writes the id into the payment, and a transaction that fails later does not take it back.
  written_payment : Payment → Result Payment → Payment
  written_payment candidate (ok payment) = payment
  written_payment candidate (err _) = candidate

  -- `recordRejected`, whose payment is there even with an error.
  unfoldable pub record_rejected :
      CreatePaymentCommand → Rejection → M PaymentStore (Payment × Result Payment)
  unfolding store_rejected written_payment insert_payment ◌>>=◌
  record_rejected c reason w =
      let candidate = new_payment c PaymentStatus.failed in
      let (begun, _) = (do boundary; statement (insert_payment candidate)) w in
      let (r, w') = store_rejected c reason w in (ok (written_payment candidate begun, r), w')

module _ (sha256 : List ℕ → List ℕ) (codec : Codec) where
  -- The transaction of `createPoint` from the stored payment on.
  unfoldable pub pay_row : CreatePaymentCommand → Payment → M PaymentStore Payment
  unfolding adjust enqueue ◌>>=◌
  pay_row c payment = do
    adjust sha256 payment.user_id (neg64 payment.amount) kind_payment
        ("payment #" <> decimal payment.id) (some payment.id)
    enqueue codec payment c.order c.idempotency_key ""
    pure payment

  unfoldable pub pay_points : CreatePaymentCommand → M PaymentStore Payment
  unfolding insert_payment pay_row ◌>>=◌
  pay_points c = transaction (do
    payment ← statement (insert_payment (new_payment c PaymentStatus.succeeded))
    pay_row c payment)

  abbrev rejected_with : Option Payment → CreatePaymentResult
  rejected_with payment = record {
    payment = payment;
    replayed = false;
    rejected = some few_points;
    action_url = "";
  }

  unfoldable pub reject_points : CreatePaymentCommand → M PaymentStore CreatePaymentResult
  unfolding record_rejected ◌>>=◌
  reject_points c = record_for c.order
    where
      record_for : Option OrderCreated → M PaymentStore CreatePaymentResult
      record_for none = pure (rejected_with none)
      record_for (some _) = do
        (payment, _) ← record_rejected codec c few_points
        pure (rejected_with (some payment))

  -- A key that was taken meanwhile is answered as a replay.
  unfoldable pub replay_or : Error → Result Payment → M PaymentStore CreatePaymentResult
  unfolding replay
  replay_or e (ok existing) = replay existing
  replay_or e (err _) = throw e

  unfoldable pub answer_points :
      CreatePaymentCommand → Result Payment → M PaymentStore CreatePaymentResult
  unfolding reject_points find_by_key replay_or ◌>>=◌
  answer_points c (ok payment) =
      pure (record { payment = some payment; replayed = false; rejected = none; action_url = "" })
  answer_points c (err Error.insufficient_points) = reject_points c
  answer_points c (err e) = do
    existing ← attempt (find_by_key c.idempotency_key)
    replay_or e existing

  -- `createPoint`
  unfoldable pub create_point : CreatePaymentCommand → M PaymentStore CreatePaymentResult
  unfolding pay_points answer_points ◌>>=◌
  create_point c = do r ← attempt (pay_points c); answer_points c r
