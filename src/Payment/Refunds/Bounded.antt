-- ===== src/Payment/Refunds/Bounded.antt =====
-- `refundPayment` on every branch: a refund that fits, or nothing.
use pingu_coin.Base.{ℕ, String, List, false, some, ◌≡◌, refl, ◌==◌, find_first}
use pingu_coin.Base.Int.{ℤ, pos, sub64, add64, ◌≤ℤ◌, leb_ℤ, ltb_ℤ, InRange}
use pingu_coin.Base.Text.{◌is◌}
use pingu_coin.Base.Store.{Result, ok, err, pure}
use pingu_coin.Base.Store.Laws.{
  Leads, leads_if, leads_pure, leads_statement, leads_weaken, leads_attempt,
}
use pingu_coin.Base.Store.Rules.{leads_attempt_found}
use pingu_coin.Base.Store.Keeps.{Keeps, Keeps-pure, Keeps-throw, Keeps-bind, Keeps-query}
use pingu_coin.Payment.Model.{Payment, Refund, PaymentStore, method_point}
use pingu_coin.Payment.Calls.{RefundRequest}
use pingu_coin.Payment.Provider.{Provider, Posted, posted, failed, post, refund_intent}
use pingu_coin.Payment.Rows.{find_payment, find_source, is_payment, sum_succeeded}
use pingu_coin.Payment.Reversal.{refund_external, demand}
use pingu_coin.Payment.Server.{or_internal, is_refundable}
use pingu_coin.Payment.Refunds.{
  RefundPaymentRequest, refund_points, refund_given, refund_key, refund_money, refund_within,
  refund_summed, refund_settled, refund_found, refund_requested, refund_payment,
}
use pingu_coin.Payment.Refunds.Within.{
  given, Unmoved, Stored, Refunded, store_points-Stored, store_money-Stored,
}

module _ (sha256 : List ℕ → List ℕ) (provider : Provider) (request : RefundPaymentRequest)
    (s : PaymentStore) (p : Payment) where
  answered :
      (r : Result (Refund × Payment)) (t : PaymentStore)
      → Stored request s p r t
      → Leads (pure (or_internal r)) t (Refunded request s p)
  answered (ok (r, q)) t g = leads_pure g
  answered (err _) t e = leads_pure e

  demand-Keeps : (r : Posted) → Keeps (Unmoved request s p) (demand r)
  demand-Keeps (posted _) = Keeps-pure tt
  demand-Keeps (failed _ _) = Keeps-throw _

  refund_intent-Keeps :
      (ask : RefundRequest) → Keeps (Unmoved request s p) (refund_intent provider ask)
  unfolding refund_intent post
  refund_intent-Keeps ask t e = record { outcome = λ faults. e }

  external-Keeps :
      (amount : ℤ) (key : String)
      → Keeps (Unmoved request s p) (refund_external provider p amount key)
  unfolding refund_external find_source
  external-Keeps amount key =
      Keeps-bind _ _ (Keeps-query _) (λ source. Keeps-bind _ _ (refund_intent-Keeps _) demand-Keeps)

  module _ (looked_up : find_first (is_payment request.payment_id) s.payments ≡ some p)
      (range : InRange p.amount) (some_given : pos 0 ≤ℤ given request s p)
      (within : given request s p ≤ℤ p.amount) where
    abbrev remaining : ℤ
    remaining = sub64 p.amount (given request s p)

    module _ (fits : ltb_ℤ remaining request.amount ≡ false) where
      points-Refunded : Leads (refund_points sha256 request p remaining) s (Refunded request s p)
      unfolding refund_points
      points-Refunded = leads_attempt {f = λ r. pure (or_internal r)} (
          leads_weaken
            (store_points-Stored request s p looked_up range some_given within fits sha256 s
              (refl, refl))
            (answered))

      given-Refunded :
          (r : Result (Unit {0})) (t : PaymentStore)
          → Unmoved request s p t
          → Leads (refund_given request p remaining r) t (Refunded request s p)
      unfolding refund_given
      given-Refunded (err _) t e = leads_pure e
      given-Refunded (ok _) t e = leads_attempt {f = λ r. pure (or_internal r)} (
          leads_weaken (store_money-Stored request s p looked_up range some_given within fits t e)
            (answered))

      money-Refunded :
          Leads
            (refund_money sha256 provider request p (given request s p))
            s
            (Refunded request s p)
      unfolding refund_money
      money-Refunded = leads_attempt {f = refund_given request p remaining} (
          leads_weaken
            (external-Keeps request.amount (refund_key p (add64 (given request s p) request.amount))
              s (refl, refl))
            given-Refunded)

      within-Refunded :
          Leads
            (refund_within sha256 provider request p (given request s p))
            s
            (Refunded request s p)
      unfolding refund_within
      within-Refunded =
          leads_if (p.payment_method is method_point) (λ _. points-Refunded) (λ _. money-Refunded)

    settled-Refunded : Leads (refund_settled sha256 provider request p) s (Refunded request s p)
    unfolding refund_settled sum_succeeded refund_summed
    settled-Refunded = leads_attempt {f = refund_summed sha256 provider request p} (
        leads_statement _ (leads_pure (refl, refl)) (
          leads_if (ltb_ℤ remaining request.amount) (λ _. leads_pure (refl, refl)) within-Refunded))

    found-Refunded : Leads (refund_found sha256 provider request (ok p)) s (Refunded request s p)
    unfolding refund_found
    found-Refunded =
        leads_if (is_refundable p.status) (λ _. settled-Refunded) (λ _. leads_pure (refl, refl))

    requested-Refunded : Leads (refund_requested sha256 provider request) s (Refunded request s p)
    unfolding refund_requested find_payment
    requested-Refunded =
        leads_attempt_found (λ x. find_first (is_payment request.payment_id) x.payments)
          (refund_found sha256 provider request) (rw looked_up found-Refunded)
          (leads_pure (refl, refl))

    -- Where the refunds of a payment are between 0 and its amount, and its amount is in 64 bits,
    -- `refundPayment` either changes neither refunds nor payments, or adds one refund of the
    -- requested amount after which the refunds sum up to at most the payment's amount, and the
    -- payment is refunded where they reach it and partially refunded where they do not; whatever
    -- statements fail and whatever the provider answers.
    pub refund_payment-Refunded :
        Leads (refund_payment sha256 provider request) s (Refunded request s p)
    unfolding refund_payment
    refund_payment-Refunded =
        leads_if (request.payment_id == 0) (λ _. leads_pure (refl, refl))
          (λ _.
            leads_if (leb_ℤ request.amount (pos 0)) (λ _. leads_pure (refl, refl))
              (λ _. requested-Refunded))
