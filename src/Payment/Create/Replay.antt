-- ===== src/Payment/Create/Replay.antt =====
-- A request whose key is known is answered with the payment that it has made.
use pingu_coin.Base.{ℕ, String, List, true, none, some, ◌≡◌, refl, find_first}
use pingu_coin.Base.Text.{trim_space}
use pingu_coin.Base.Store.{pure, Result, ok, err, unavailable}
use pingu_coin.Base.Store.Laws.{Leads, leads_throw, leads_pure}
use pingu_coin.Base.Store.Rules.{leads_attempt_found}
use pingu_coin.Flow.{Codec}
use pingu_coin.Payment.Model.{Payment, PaymentStore}
use pingu_coin.Payment.Provider.{Provider}
use pingu_coin.Payment.Rows.{has_payment_key, find_by_key, find_source, is_source_of}
use pingu_coin.Payment.Command.{CreatePaymentCommand, CreatePaymentResult, validate}
use pingu_coin.Payment.PointPayment.{replay, replay_result}
use pingu_coin.Payment.Create.{trimmed, create_payment, create_checked, create_valid, create_found}

-- No row has changed and the provider was sent nothing; the answer is the payment, or a lost
-- connection.
abbrev pub Replayed : Payment → PaymentStore → Result CreatePaymentResult → PaymentStore → Type 0
Replayed p s (ok r) t = (r.payment ≡ some p) × (r.replayed ≡ true) × (t ≡ s)
Replayed p s (err e) t = (e ≡ unavailable) × (t ≡ s)

pub replay-Replayed : (p : Payment) (s : PaymentStore) → Leads (replay p) s (Replayed p s)
unfolding replay find_source
replay-Replayed p s =
    leads_attempt_found (λ x. find_first (is_source_of p.id) x.sources)
      (λ source. pure (replay_result p source)) (leads_pure (refl, refl, refl))
      (leads_pure (refl, refl, refl))

module _ (sha256 : List ℕ → List ℕ) (codec : Codec) (provider : Provider) (return_url : String)
    (now : ℕ) where
  -- A command that passes the checks and whose key, without the spaces around it, a payment has,
  -- changes no row and sends the provider nothing; whatever statements fail, the answer is that
  -- payment, marked as a replay, or that the database is unavailable.
  pub create_payment-Replayed :
      (c : CreatePaymentCommand) (s : PaymentStore) (p : Payment)
      → validate (trimmed c) ≡ none
      → find_first (has_payment_key (trim_space c.idempotency_key)) s.payments ≡ some p
      → Leads (create_payment sha256 codec provider return_url now c) s (Replayed p s)
  unfolding create_payment create_checked create_valid create_found find_by_key
  create_payment-Replayed c s p valid known = rw valid (
      leads_attempt_found
        (λ x. find_first (has_payment_key (trim_space c.idempotency_key)) x.payments)
        (create_found sha256 codec provider return_url now (trimmed c))
        (rw known (replay-Replayed p s)) (leads_throw (refl, refl)))
