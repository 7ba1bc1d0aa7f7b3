-- ===== src/Payment/Reconcile.antt =====
-- services/payment-api/internal/application/payment_usecase.go: `ReconcileProcessing`.
pub mod Settled
pub mod Unpaid
use pingu_coin.Base.{ℕ, String, List, [], ◌∷◌, if◌then◌else◌}
use pingu_coin.Base.Store.{M, pure, ◌>>=◌, ◌>>◌}
use pingu_coin.Flow.{Codec}
use pingu_coin.Payment.Calls.{ChargeRequest}
use pingu_coin.Payment.Model.{Payment, PaymentSource, PaymentStore}
use pingu_coin.Payment.Provider.{Provider, Posted, posted, failed, charge}
use pingu_coin.Payment.Rows.{find_payment, pending_before}
use pingu_coin.Payment.Command.{provider_unavailable, rejection_text}
use pingu_coin.Payment.Events.{is_processing, order_of}
use pingu_coin.Payment.External.{store_failure, capture_charge}

abbrev pub repeated_request : Payment → ChargeRequest
repeated_request p = record {
  amount = p.amount;
  currency = p.currency;
  idempotency_key = p.idempotency_key;
  return_url = "";
  payment_method = "";
}

module _ (sha256 : List ℕ → List ℕ) (codec : Codec) (provider : Provider) where
  unfoldable pub reconcile_charged : PaymentSource → Payment → Posted → M PaymentStore (Unit {0})
  unfolding order_of rejection_text store_failure capture_charge
  reconcile_charged source payment (failed permanent text) =
      let reason = rejection_text (provider_unavailable text) in
      if permanent
      then store_failure codec (order_of codec source) reason payment source
      else pure tt
  reconcile_charged source payment (posted charged) =
      capture_charge sha256 codec provider (order_of codec source) charged.id payment source

  unfoldable pub reconcile_processing : PaymentSource → Payment → M PaymentStore (Unit {0})
  unfolding charge reconcile_charged ◌>>=◌
  reconcile_processing source payment = do
    charged ← charge provider (repeated_request payment)
    reconcile_charged source payment charged

  unfoldable pub reconcile_payment : PaymentSource → Payment → M PaymentStore (Unit {0})
  unfolding reconcile_processing
  reconcile_payment source payment =
      if is_processing payment.status then reconcile_processing source payment else pure tt

  unfoldable pub reconcile_source : PaymentSource → M PaymentStore (Unit {0})
  unfolding find_payment reconcile_payment ◌>>=◌
  reconcile_source source = do
    payment ← find_payment source.payment_id
    reconcile_payment source payment

  unfoldable pub reconcile_all : List PaymentSource → M PaymentStore (Unit {0})
  unfolding reconcile_source ◌>>=◌
  reconcile_all [] = pure tt
  reconcile_all (source ∷ rest) = do reconcile_source source; reconcile_all rest

  -- `ReconcileProcessing`: the sources that are pending and were made before `before`.
  unfoldable pub reconcile : ℕ → M PaymentStore (Unit {0})
  unfolding pending_before reconcile_all ◌>>=◌
  reconcile before = do sources ← pending_before before 100; reconcile_all sources
