-- ===== src/Payment/Direct.antt =====
-- services/payment-api/internal/grpcserver/payment_server.go: `createPayment` of a server that has
-- no use case, and `recoverDuplicatePayment`.
use pingu_coin.Base.{ℕ, String, List, Bool, true, false, Option, none, some, ◌==◌, if◌then◌else◌}
use pingu_coin.Base.Int.{pos, leb_ℤ, neg64}
use pingu_coin.Base.Text.{◌is◌, ◌<>◌, trim_space, decimal}
use pingu_coin.Base.Store.{
  Result, ok, err, Error, M, pure, ◌>>=◌, ◌>>◌, statement, transaction, attempt,
}
use pingu_coin.Base.Rpc.{invalid_argument, failed_precondition, Reply, reply, refuse}
use pingu_coin.Payment.Model.{
  Payment, PaymentStatus, PaymentStore, method_point, purpose_purchase, kind_payment,
}
use pingu_coin.Payment.Points.{adjust}
use pingu_coin.Payment.Rows.{insert_payment, find_by_key}
use pingu_coin.Payment.Command.{CreatePaymentCommand, new_payment}
use pingu_coin.Payment.Server.{internal_error}

-- The first check that the request fails, if any; `key` is its key without the spaces around it.
unfoldable pub direct_fault : CreatePaymentCommand → String → Option String
unfolding trim_space
direct_fault c key =
    if c.user_id == 0
    then some "user_id is required"
    else if c.product_id == 0
    then some "product_id is required"
    else if leb_ℤ c.amount (pos 0)
    then some "amount must be greater than zero"
    else if trim_space c.currency is ""
    then some "currency is required"
    else if trim_space c.payment_method is ""
    then some "payment_method is required"
    else if key is ""
    then some "idempotency_key is required"
    else none

-- The purpose is left to the column's default.
abbrev pub direct_payment : CreatePaymentCommand → String → Payment
direct_payment c key = record (new_payment c PaymentStatus.succeeded) {
  idempotency_key = key;
  purpose = purpose_purchase;
}

-- The payment, and whether it was there.
abbrev pub Stored : Type 0
Stored = Payment × Bool

-- `recoverDuplicatePayment`
abbrev pub recovered : Result Payment → Reply Stored
recovered (ok existing) = reply (existing, true)
recovered (err _) = internal_error

unfoldable pub recover_duplicate : Error → String → M PaymentStore (Reply Stored)
unfolding find_by_key ◌>>=◌
recover_duplicate Error.duplicated_key key = do
  existing ← attempt (find_by_key key)
  pure (recovered existing)
recover_duplicate e key = pure internal_error

unfoldable pub money_stored : String → Result Payment → M PaymentStore (Reply Stored)
unfolding recover_duplicate
money_stored key (ok payment) = pure (reply (payment, false))
money_stored key (err e) = recover_duplicate e key

unfoldable pub store_direct : Payment → M PaymentStore (Reply Stored)
unfolding insert_payment money_stored ◌>>=◌
store_direct payment = do
  r ← attempt (statement (insert_payment payment))
  money_stored payment.idempotency_key r

unfoldable pub points_stored : String → Result Payment → M PaymentStore (Reply Stored)
unfolding recover_duplicate
points_stored key (ok payment) = pure (reply (payment, false))
points_stored key (err Error.insufficient_points) =
    pure (refuse failed_precondition "insufficient points")
points_stored key (err e) = recover_duplicate e key

module _ (sha256 : List ℕ → List ℕ) where
  unfoldable pub spend_direct : Payment → M PaymentStore Payment
  unfolding adjust ◌>>=◌
  spend_direct payment = do
    adjust sha256 payment.user_id (neg64 payment.amount) kind_payment
        ("payment #" <> decimal payment.id) (some payment.id)
    pure payment

  unfoldable pub spend_points : Payment → M PaymentStore Payment
  unfolding insert_payment spend_direct ◌>>=◌
  spend_points payment =
      transaction (do stored ← statement (insert_payment payment); spend_direct stored)

  unfoldable pub pay_direct : Payment → M PaymentStore (Reply Stored)
  unfolding spend_points points_stored ◌>>=◌
  pay_direct payment = do
    r ← attempt (spend_points payment)
    points_stored payment.idempotency_key r

  unfoldable pub direct_found : Payment → Result Payment → M PaymentStore (Reply Stored)
  unfolding pay_direct store_direct
  direct_found payment (ok existing) = pure (reply (existing, true))
  direct_found payment (err Error.record_not_found) =
      if payment.payment_method is method_point then pay_direct payment else store_direct payment
  direct_found payment (err e) = pure internal_error

  unfoldable pub direct_checked :
      CreatePaymentCommand → String → Option String → M PaymentStore (Reply Stored)
  unfolding find_by_key direct_found ◌>>=◌
  direct_checked c key (some fault) = pure (refuse invalid_argument fault)
  direct_checked c key none = do
    existing ← attempt (find_by_key key)
    direct_found (direct_payment c key) existing

  -- `createPayment` from the checks of the request on.
  unfoldable pub create_direct : CreatePaymentCommand → M PaymentStore (Reply Stored)
  unfolding trim_space direct_fault direct_checked
  create_direct c =
      let key = trim_space c.idempotency_key in direct_checked c key (direct_fault c key)
