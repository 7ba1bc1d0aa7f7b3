-- ===== src/Payment/Refunds/Completion.antt =====
-- A refund that fits is carried out where the database and the provider answer.
use pingu_coin.Base.{
  ℕ, suc, List, [], ◌∷◌, ◌++◌, true, false, some, ◌≡◌, refl, ◌==◌, find_first, ◌⊎◌, inl, inr,
}
use pingu_coin.Base.Int.{ℤ, pos, add64, sub64, leb_ℤ, ltb_ℤ, ◌≤ℤ◌, InRange}
use pingu_coin.Base.Text.{◌is◌}
use pingu_coin.Base.Store.{ok, calm, ◌>>=◌, statement, transaction}
use pingu_coin.Base.Store.Laws.{leads_calm}
use pingu_coin.Base.Rpc.{reply}
use pingu_coin.Payment.Refunds.Within.{Refunded}
use pingu_coin.Payment.Refunds.Bounded.{refund_payment-Refunded}
use pingu_coin.Payment.Calls.{ChargeResult, RefundRequest, refund}
use pingu_coin.Payment.Model.{
  PaymentStatus, Payment, PaymentSource, Refund, PaymentStore, method_point,
}
use pingu_coin.Payment.Provider.{Provider, posted, post, refund_intent, http_result, no_result}
use pingu_coin.Payment.Rows.{
  find_payment, find_source, is_payment, is_source_of, save_payment, insert_refund, sum_succeeded,
  refunded,
}
use pingu_coin.Payment.Reversal.{refund_external}
use pingu_coin.Payment.Server.{is_refundable}
use pingu_coin.Payment.Refunds.{
  RefundPaymentRequest, new_refund, refunded_payment, write_rows, store_money, refund_given,
  refund_key, refund_money, refund_within, refund_summed, refund_settled, refund_found,
  refund_requested, refund_payment,
}

module _ (sha256 : List ℕ → List ℕ) (provider : Provider) (request : RefundPaymentRequest)
    (s : PaymentStore) (p : Payment) (x : PaymentSource) where
  abbrev pub left : ℤ
  left = sub64 p.amount (refunded p.id s.refunds)

  -- What the provider is asked for.
  abbrev pub asked : RefundRequest
  asked = record {
    payment_intent_id = x.provider_reference;
    amount = request.amount;
    idempotency_key = refund_key p (add64 (refunded p.id s.refunds) request.amount);
  }

  abbrev pub row : Refund
  row = record (new_refund request p) { id = s.next_refund }

  -- The tables with the refund.
  abbrev pub with_refund : PaymentStore
  with_refund = record s {
    refunds = s.refunds ++ row ∷ [];
    next_refund = suc s.next_refund;
    calls = s.calls ++ refund asked ∷ [];
  }

  refund_payment-completes :
      (r : ChargeResult)
      → (request.payment_id == 0) ≡ false
      → leb_ℤ request.amount (pos 0) ≡ false
      → find_first (is_payment request.payment_id) s.payments ≡ some p
      → is_refundable p.status ≡ true
      → ltb_ℤ left request.amount ≡ false
      → (p.payment_method is method_point) ≡ false
      → find_first (is_source_of p.id) s.sources ≡ some x
      → http_result (provider.answer s.calls (refund asked) no_result) ≡ posted r
      → refund_payment sha256 provider request (calm s) ≡ (
        ok (reply (row, refunded_payment request.amount left p)),
        calm (save_payment (refunded_payment request.amount left p) with_refund),
      )
  unfolding refund_payment refund_requested refund_found refund_settled refund_summed refund_within
      refund_money refund_external refund_intent post refund_given store_money write_rows
      insert_refund sum_succeeded find_payment find_source ◌>>=◌ statement transaction
  refund_payment-completes r named positive looked_up open_status fits money source accepted =
      rw (named, positive, looked_up, open_status, fits, money, source, accepted) refl

  -- While no statement fails and the provider accepts, a positive refund of no more than what is left
  -- of a payment by a provider (not by points) that has succeeded or is partially refunded is asked
  -- for once, under the payment's intent and by the requested amount; it is answered and stored, the
  -- refunds sum up to at most the payment's amount, and the payment is refunded where they reach it
  -- and partially refunded where they do not. The refunds before are between 0 and the amount, which
  -- is in 64 bits.
  pub refund_payment-succeeds :
      (r : ChargeResult)
      → (request.payment_id == 0) ≡ false
      → leb_ℤ request.amount (pos 0) ≡ false
      → find_first (is_payment request.payment_id) s.payments ≡ some p
      → (p.status ≡ PaymentStatus.succeeded) ⊎ (p.status ≡ PaymentStatus.partially_refunded)
      → ltb_ℤ left request.amount ≡ false
      → (p.payment_method is method_point) ≡ false
      → find_first (is_source_of p.id) s.sources ≡ some x
      → http_result (provider.answer s.calls (refund asked) no_result) ≡ posted r
      → InRange p.amount
      → pos 0 ≤ℤ refunded p.id s.refunds
      → refunded p.id s.refunds ≤ℤ p.amount
      → (given : Refund) × (q : Payment) × (t : PaymentStore) × (refund_payment sha256 provider
            request
            (calm s)
          ≡ (ok (reply (given, q)), calm t))
        × Refunded request s p (ok (reply (given, q))) t
        × (t.calls ≡ s.calls ++ refund asked ∷ [])
  unfolding save_payment
  refund_payment-succeeds r named positive looked_up open_status fits money source accepted range
        some_given within =
      let done =
        refund_payment-completes r named positive looked_up (refundable p.status open_status) fits
          money source accepted in
      (
        _,
        _,
        _,
        done,
        leads_calm
            (refund_payment-Refunded sha256 provider request s p looked_up range some_given within)
            done,
        refl,
      )
    where
      refundable :
          (status : PaymentStatus)
          → (status ≡ PaymentStatus.succeeded) ⊎ (status ≡ PaymentStatus.partially_refunded)
          → is_refundable status ≡ true
      refundable status (inl e) = rw e refl
      refundable status (inr e) = rw e refl
