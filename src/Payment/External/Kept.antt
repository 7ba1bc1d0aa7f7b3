-- ===== src/Payment/External/Kept.antt =====
-- What only the rows of payments decide survives the calls of the provider, and the transactions
-- of an external payment where the payment that they save does not decide it.
use pingu_coin.Base.{ℕ, String, List, false, ◌||◌, Option, none, some, ◌≡◌, refl}
use pingu_coin.Base.Text.{◌is◌, ◌<>◌}
use pingu_coin.Base.Store.{Result, ok, err, pure}
use pingu_coin.Base.Store.Keeps.{
  Keeps, Keeps-pure, Keeps-throw, Keeps-if, Keeps-modify, Keeps-bind, Keeps-attempt,
  Keeps-transaction,
}
use pingu_coin.Flow.{Codec, OrderCreated}
use pingu_coin.Payment.Calls.{ChargeRequest, ChargeResult, ProviderCall}
use pingu_coin.Payment.Model.{Payment, PaymentSource, PaymentStore}
use pingu_coin.Payment.Provider.{
  Provider, Posted, posted, failed, post, cancel_intent, after_capture, capture_intent,
  after_intent, charge,
}
use pingu_coin.Payment.Points.Keeps.{top_up-Keeps}
use pingu_coin.Payment.Rows.{save_payment, save_source, insert_outbox}
use pingu_coin.Payment.Events.{enqueue, succeeded_payment}
use pingu_coin.Payment.External.{
  failed_payment, store_failure, store_capture, or_cancel, capture_charge, enqueue_action_required,
}

module _ (I : PaymentStore → Type 0)
    (free : (s t : PaymentStore) → t.payments ≡ s.payments → I s → I t) where
  pub enqueue-Keeps :
      (codec : Codec) (payment : Payment) (order : Option OrderCreated) (key reason : String)
      → Keeps I (enqueue codec payment order key reason)
  unfolding enqueue insert_outbox
  enqueue-Keeps codec payment none key reason = Keeps-pure tt
  enqueue-Keeps codec payment (some order) key reason = Keeps-modify _ (λ s i. free s _ refl i)

  pub enqueue_action_required-Keeps :
      (codec : Codec) (payment : Payment) (order : Option OrderCreated) (key url : String)
      → Keeps I (enqueue_action_required codec payment order key url)
  unfolding enqueue_action_required insert_outbox
  enqueue_action_required-Keeps codec payment none key url = Keeps-pure tt
  enqueue_action_required-Keeps codec payment (some order) key url =
      Keeps-modify _ (λ s i. free s _ refl i)

  pub save_source-Keeps : (x : PaymentSource) (s : PaymentStore) → I s → I (save_source x s)
  unfolding save_source
  save_source-Keeps x s i = free s _ refl i

  module _ (provider : Provider) where
    post-Keeps : (call : ProviderCall) (value : ChargeResult) → Keeps I (post provider call value)
    unfolding post
    post-Keeps call value s i = record { outcome = λ faults. free s _ refl i }

    pub cancel_intent-Keeps : (id : String) → Keeps I (cancel_intent provider id)
    unfolding cancel_intent
    cancel_intent-Keeps id = post-Keeps _ _

    after_capture-Keeps : (id : String) (r : Posted) → Keeps I (after_capture provider id r)
    unfolding after_capture
    after_capture-Keeps id (failed permanent text) =
        Keeps-bind _ _ (cancel_intent-Keeps id) (λ _. Keeps-pure (failed permanent text))
    after_capture-Keeps id (posted intent) =
        Keeps-if (intent.status is "succeeded") (pure (posted intent))
          (pure (failed false ("unexpected Stripe status " <> provider.quoted intent.status)))
          (Keeps-pure _) (Keeps-pure _)

    capture_intent-Keeps : (intent : ChargeResult) → Keeps I (capture_intent provider intent)
    unfolding capture_intent
    capture_intent-Keeps intent = Keeps-bind _ _ (post-Keeps _ _) (after_capture-Keeps intent.id)

    after_intent-Keeps : (r : Posted) → Keeps I (after_intent provider r)
    unfolding after_intent
    after_intent-Keeps (failed permanent text) = Keeps-pure _
    after_intent-Keeps (posted intent) =
        Keeps-if ((intent.status is "requires_action") || (intent.status is "succeeded"))
          (pure (posted intent)) (capture_intent provider intent) (Keeps-pure _)
          (capture_intent-Keeps intent)

    pub charge-Keeps : (request : ChargeRequest) → Keeps I (charge provider request)
    unfolding charge
    charge-Keeps request = Keeps-bind _ _ (post-Keeps _ _) after_intent-Keeps

  module _ (codec : Codec) (order : Option OrderCreated) (payment : Payment)
      (source : PaymentSource) where
    pub store_failure-Keeps :
        (reason : String)
        → ((s : PaymentStore) → I s → I (save_payment (failed_payment payment) s))
        → Keeps I (store_failure codec order reason payment source)
    unfolding store_failure
    store_failure-Keeps reason saves = Keeps-transaction _ (
        Keeps-bind _ _ (Keeps-modify _ saves) (λ _.
          Keeps-bind _ _ (Keeps-modify _ (save_source-Keeps _)) (λ _.
            enqueue-Keeps codec (failed_payment payment) order payment.idempotency_key reason)))

    module _ (sha256 : List ℕ → List ℕ) (provider : Provider) (reference : String)
        (saves : (s : PaymentStore) → I s → I (save_payment (succeeded_payment payment) s)) where
      store_capture-Keeps :
          Keeps I (store_capture sha256 codec provider order reference payment source)
      unfolding store_capture
      store_capture-Keeps = Keeps-transaction _ (
          Keeps-bind _ _ (Keeps-modify _ saves) (λ _.
            Keeps-bind _ _ (Keeps-modify _ (save_source-Keeps _)) (λ _.
              Keeps-bind _ _
                (top_up-Keeps I (λ s t same i. free s t same.payments i) sha256 payment)
                (λ _.
                  enqueue-Keeps codec (succeeded_payment payment) order payment.idempotency_key
                    ""))))

      or_cancel-Keeps :
          (r : Result (Unit {0})) → Keeps I (or_cancel sha256 codec provider reference r)
      unfolding or_cancel
      or_cancel-Keeps (ok _) = Keeps-pure tt
      or_cancel-Keeps (err e) =
          Keeps-bind _ _ (cancel_intent-Keeps provider reference) (λ _. Keeps-throw e)

      pub capture_charge-Keeps :
          Keeps I (capture_charge sha256 codec provider order reference payment source)
      unfolding capture_charge
      capture_charge-Keeps =
          Keeps-attempt _ (or_cancel sha256 codec provider reference) store_capture-Keeps
            or_cancel-Keeps
