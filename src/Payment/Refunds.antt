-- ===== src/Payment/Refunds.antt =====
-- services/payment-api/internal/grpcserver/payment_server.go: `refundPayment`.
pub mod Within
pub mod Bounded
pub mod Completion
use pingu_coin.Base.{ℕ, String, List, Bool, true, false, not, none, some, ◌==◌, if◌then◌else◌}
use pingu_coin.Base.Int.{ℤ, pos, sub64, add64, leb_ℤ, ltb_ℤ, eqb_ℤ}
use pingu_coin.Base.Text.{◌is◌, ◌<>◌, decimal}
use pingu_coin.Base.Store.{
  Result, ok, err, M, pure, ◌>>=◌, ◌>>◌, statement, modify, transaction, attempt,
}
use pingu_coin.Base.Rpc.{invalid_argument, failed_precondition, Reply, reply, refuse}
use pingu_coin.Payment.Model.{
  Payment, PaymentStatus, Refund, RefundStatus, PaymentStore, method_point, kind_refund,
}
use pingu_coin.Payment.Points.{adjust}
use pingu_coin.Payment.Rows.{find_payment, save_payment, insert_refund, sum_succeeded}
use pingu_coin.Payment.Provider.{Provider}
use pingu_coin.Payment.Reversal.{refund_external}
use pingu_coin.Payment.Server.{
  internal_error, or_internal, unfound, map_find_error, status_text, is_refundable, signed_decimal,
}

pub record RefundPaymentRequest : Type 0 where
  pub payment_id : ℕ
  pub amount : ℤ
  pub reason : String

abbrev pub new_refund : RefundPaymentRequest → Payment → Refund
new_refund request payment = record {
  id = 0;
  payment_id = payment.id;
  amount = request.amount;
  reason = request.reason;
  status = RefundStatus.succeeded;
}

abbrev pub new_status : ℤ → ℤ → PaymentStatus
new_status amount remaining =
    if eqb_ℤ amount remaining then PaymentStatus.refunded else PaymentStatus.partially_refunded

abbrev pub refunded_payment : ℤ → ℤ → Payment → Payment
refunded_payment amount remaining p = record p { status = new_status amount remaining }

-- The refund and the payment, one transaction.
unfoldable pub write_rows :
    RefundPaymentRequest → Payment → ℤ → Refund → M PaymentStore (Refund × Payment)
unfolding save_payment ◌>>=◌
write_rows request payment remaining refund = do
  modify (save_payment (refunded_payment request.amount remaining payment))
  pure (refund, refunded_payment request.amount remaining payment)

unfoldable pub store_money : RefundPaymentRequest → Payment → ℤ → M PaymentStore (Refund × Payment)
unfolding insert_refund write_rows ◌>>=◌
store_money request payment remaining = transaction (do
  refund ← statement (insert_refund (new_refund request payment))
  write_rows request payment remaining refund)

module _ (sha256 : List ℕ → List ℕ) where
  -- The points go back to the buyer in the same transaction.
  unfoldable pub give_back :
      RefundPaymentRequest → Payment → ℤ → Refund → M PaymentStore (Refund × Payment)
  unfolding write_rows adjust ◌>>=◌
  give_back request payment remaining refund = do
    rows ← write_rows request payment remaining refund
    adjust sha256 payment.user_id refund.amount kind_refund ("refund #" <> decimal refund.id)
        (some payment.id)
    pure rows

  unfoldable pub store_points :
      RefundPaymentRequest → Payment → ℤ → M PaymentStore (Refund × Payment)
  unfolding insert_refund give_back ◌>>=◌
  store_points request payment remaining = transaction (do
    refund ← statement (insert_refund (new_refund request payment))
    give_back request payment remaining refund)

  unfoldable pub refund_points :
      RefundPaymentRequest → Payment → ℤ → M PaymentStore (Reply (Refund × Payment))
  unfolding store_points ◌>>=◌
  refund_points request payment remaining = do
    r ← attempt (store_points request payment remaining)
    pure (or_internal r)

-- The provider has, or has not, given the money back.
unfoldable pub refund_given :
    RefundPaymentRequest
    → Payment
    → ℤ
    → Result (Unit {0})
    → M PaymentStore (Reply (Refund × Payment))
unfolding store_money ◌>>=◌
refund_given request payment remaining (err _) = pure internal_error
refund_given request payment remaining (ok _) = do
  r ← attempt (store_money request payment remaining)
  pure (or_internal r)

abbrev pub refund_key : Payment → ℤ → String
refund_key payment total = "refund-" <> decimal payment.id <> "-" <> signed_decimal total

module _ (sha256 : List ℕ → List ℕ) (provider : Provider) where
  unfoldable pub refund_money :
      RefundPaymentRequest → Payment → ℤ → M PaymentStore (Reply (Refund × Payment))
  unfolding refund_external refund_given signed_decimal decimal ◌>>=◌
  refund_money request payment already = do
    let key = refund_key payment (add64 already request.amount)
    r ← attempt (refund_external provider payment request.amount key)
    refund_given request payment (sub64 payment.amount already) r

  unfoldable pub refund_within :
      RefundPaymentRequest → Payment → ℤ → M PaymentStore (Reply (Refund × Payment))
  unfolding refund_money refund_points
  refund_within request payment already =
      if payment.payment_method is method_point
      then refund_points sha256 request payment (sub64 payment.amount already)
      else refund_money request payment already

  unfoldable pub refund_summed :
      RefundPaymentRequest → Payment → Result ℤ → M PaymentStore (Reply (Refund × Payment))
  unfolding refund_within
  refund_summed request payment (err _) = pure internal_error
  refund_summed request payment (ok already) =
      if ltb_ℤ (sub64 payment.amount already) request.amount
      then pure (refuse invalid_argument "refund amount exceeds refundable amount")
      else refund_within request payment already

  unfoldable pub refund_settled :
      RefundPaymentRequest → Payment → M PaymentStore (Reply (Refund × Payment))
  unfolding sum_succeeded refund_summed ◌>>=◌
  refund_settled request payment = do
    already ← attempt (sum_succeeded payment.id)
    refund_summed request payment already

  unfoldable pub refund_found :
      RefundPaymentRequest → Result Payment → M PaymentStore (Reply (Refund × Payment))
  unfolding map_find_error status_text refund_settled
  refund_found request (err e) = unfound e
  refund_found request (ok payment) =
      let reason = "payment is not refundable in status: " <> status_text payment.status in
      if is_refundable payment.status
      then refund_settled request payment
      else pure (refuse failed_precondition reason)

  unfoldable pub refund_requested : RefundPaymentRequest → M PaymentStore (Reply (Refund × Payment))
  unfolding find_payment refund_found ◌>>=◌
  refund_requested request = do
    r ← attempt (find_payment request.payment_id)
    refund_found request r

  -- `refundPayment`
  unfoldable pub refund_payment : RefundPaymentRequest → M PaymentStore (Reply (Refund × Payment))
  unfolding refund_requested
  refund_payment request =
      if request.payment_id == 0
      then pure (refuse invalid_argument "payment_id is required")
      else if leb_ℤ request.amount (pos 0)
      then pure (refuse invalid_argument "amount must be greater than zero")
      else refund_requested request
