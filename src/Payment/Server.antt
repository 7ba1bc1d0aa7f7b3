-- ===== src/Payment/Server.antt =====
-- services/payment-api/internal/grpcserver: payment_server.go, with `mapFindError` of errors.go and
-- the statuses of apperr. The server has a use case, as cmd/server makes it.
pub mod Cancel
use pingu_coin.Base.{
  ℕ, String, List, suc, Bool, true, false, not, Option, none, some, if◌then◌else◌,
}
use pingu_coin.Base.Int.{ℤ, pos, negsuc}
use pingu_coin.Base.Text.{◌is◌, ◌<>◌, decimal}
use pingu_coin.Base.Store.{Result, ok, err, Error, M, pure, ◌>>=◌, ◌>>◌, modify, attempt}
use pingu_coin.Base.Rpc.{
  invalid_argument, not_found, failed_precondition, internal, Code, Reply, reply, refuse,
}
use pingu_coin.Flow.{Codec}
use pingu_coin.Payment.Model.{Payment, PaymentStatus, Refund, PaymentStore, method_point}
use pingu_coin.Payment.Rows.{
  find_payment, find_payments, find_refunds, find_source, save_payment, insert_refund,
  sum_succeeded,
}
use pingu_coin.Payment.Provider.{Provider}
use pingu_coin.Payment.Command.{
  CreatePaymentCommand, CreatePaymentResult, Rejection, invalid, unsupported_method, rejection_text,
}
use pingu_coin.Payment.PointPayment.{url_of}
use pingu_coin.Payment.Reversal.{cancel_external, refund_external, canceled_payment}
use pingu_coin.Payment.Create.{create_payment}

abbrev pub internal_error : {A : Type 0} → Reply A
internal_error = refuse internal "internal server error"

-- `mapFindError`
unfoldable pub map_find_error : {A : Type 0} → String → Error → Reply A
map_find_error resource Error.record_not_found = refuse not_found (resource <> " not found")
map_find_error resource _ = internal_error

-- The texts of the column.
unfoldable pub status_text : PaymentStatus → String
status_text PaymentStatus.pending = "pending"
status_text PaymentStatus.processing = "processing"
status_text PaymentStatus.succeeded = "succeeded"
status_text PaymentStatus.failed = "failed"
status_text PaymentStatus.canceled = "canceled"
status_text PaymentStatus.refunded = "refunded"
status_text PaymentStatus.partially_refunded = "partially_refunded"

abbrev pub is_cancellable : PaymentStatus → Bool
is_cancellable PaymentStatus.pending = true
is_cancellable PaymentStatus.processing = true
is_cancellable _ = false

abbrev pub is_refundable : PaymentStatus → Bool
is_refundable PaymentStatus.succeeded = true
is_refundable PaymentStatus.partially_refunded = true
is_refundable _ = false

abbrev pub unfound : {A : Type 0} → Error → M PaymentStore (Reply A)
unfound e = pure (map_find_error "payment" e)

abbrev pub or_internal : {A : Type 0} → Result A → Reply A
or_internal (ok a) = reply a
or_internal (err _) = internal_error

-- `%d` of an `int64`
unfoldable pub signed_decimal : ℤ → String
unfolding decimal
signed_decimal (pos n) = decimal n
signed_decimal (negsuc n) = "-" <> decimal (suc n)

-- A payment with the address that its customer has to visit.
abbrev pub PaymentView : Type 0
PaymentView = Option Payment × String

-- The answer to a rejected command.
unfoldable pub refuse_rejected : {A : Type 0} → Rejection → Reply A
unfolding rejection_text
refuse_rejected (invalid detail) = refuse invalid_argument (rejection_text (invalid detail))
refuse_rejected (unsupported_method detail) =
    refuse invalid_argument (rejection_text (unsupported_method detail))
refuse_rejected reason = refuse failed_precondition (rejection_text reason)

abbrev pub show_result : CreatePaymentResult → Option Rejection → Reply PaymentView
show_result r none = reply (r.payment, r.action_url)
show_result r (some reason) = refuse_rejected reason

abbrev pub show_created : Result CreatePaymentResult → Reply PaymentView
show_created (ok r) = show_result r r.rejected
show_created (err _) = internal_error

module _ (sha256 : List ℕ → List ℕ) (codec : Codec) (provider : Provider) (return_url : String)
    (now : ℕ) where
  -- `createPayment`, whose server has a use case; the command has no order.
  unfoldable pub create_requested : CreatePaymentCommand → M PaymentStore (Reply PaymentView)
  unfolding create_payment refuse_rejected ◌>>=◌
  create_requested c = do
    r ← attempt (create_payment sha256 codec provider return_url now (record c { order = none }))
    pure (show_created r)

unfoldable pub show_payment : Result Payment → M PaymentStore (Reply PaymentView)
unfolding map_find_error find_source ◌>>=◌
show_payment (err e) = unfound e
show_payment (ok payment) = do
  source ← attempt (find_source payment.id)
  pure (reply (some payment, url_of source))

-- `GetPayment`
unfoldable pub get_payment : ℕ → M PaymentStore (Reply PaymentView)
unfolding find_payment show_payment ◌>>=◌
get_payment id = do r ← attempt (find_payment id); show_payment r

-- `ListPayments`
unfoldable pub list_payments : ℕ → M PaymentStore (Reply (List Payment))
unfolding find_payments ◌>>=◌
list_payments user = do r ← attempt (find_payments user); pure (or_internal r)

-- `ListRefunds`
unfoldable pub list_refunds : ℕ → M PaymentStore (Reply (List Refund))
unfolding find_refunds ◌>>=◌
list_refunds payment = do r ← attempt (find_refunds payment); pure (or_internal r)

module _ (codec : Codec) (provider : Provider) where
  unfoldable pub cancel_provided : Payment → M PaymentStore (Reply Payment)
  unfolding cancel_external ◌>>=◌
  cancel_provided payment = do
    r ← attempt (cancel_external codec provider payment)
    pure (or_internal r)

  unfoldable pub cancel_points : Payment → M PaymentStore (Reply Payment)
  unfolding save_payment ◌>>=◌
  cancel_points payment = do
    r ←
        attempt
          (do modify (save_payment (canceled_payment payment)); pure (canceled_payment payment))
    pure (or_internal r)

  unfoldable pub cancel_open : Payment → M PaymentStore (Reply Payment)
  unfolding cancel_provided cancel_points
  cancel_open payment =
      if not (payment.payment_method is method_point)
      then cancel_provided payment
      else cancel_points payment

  unfoldable pub cancel_found : Result Payment → M PaymentStore (Reply Payment)
  unfolding map_find_error status_text cancel_open
  cancel_found (err e) = unfound e
  cancel_found (ok payment) =
      let reason = "payment is not cancellable in status: " <> status_text payment.status in
      if is_cancellable payment.status
      then cancel_open payment
      else pure (refuse failed_precondition reason)

  -- `CancelPayment`
  unfoldable pub cancel_payment : ℕ → M PaymentStore (Reply Payment)
  unfolding find_payment cancel_found ◌>>=◌
  cancel_payment id = do r ← attempt (find_payment id); cancel_found r
