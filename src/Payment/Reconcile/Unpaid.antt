-- ===== src/Payment/Reconcile/Unpaid.antt =====
-- Reconciliation does not look at what the charge waits for.
use pingu_coin.Base.{
  ℕ, List, [], ◌∷◌, ◌++◌, true, false, none, some, ◌≡◌, refl, find_first, exists, ◌<◌, ◌==◌, ltb,
  ◌&&◌, take, select, order_by, ==_refl, arith,
}
use pingu_coin.Base.Rows.{listed, find_first-replaced}
use pingu_coin.Base.Text.{◌is◌}
use pingu_coin.Base.Store.{ok, calm, ◌>>=◌, statement, transaction}
use pingu_coin.Flow.{Codec}
use pingu_coin.Payment.Calls.{ChargeResult, create_intent}
use pingu_coin.Payment.Model.{
  PaymentStatus, SourceStatus, Payment, PaymentSource, PaymentStore, purpose_point_topup,
}
use pingu_coin.Payment.Provider.{
  Provider, posted, post, after_intent, charge, http_result, no_result,
}
use pingu_coin.Payment.Rows.{
  find_payment, is_payment, save_payment, save_source, is_pending, pending_before,
}
use pingu_coin.Payment.Events.{is_processing, order_of, enqueue, top_up, succeeded_payment}
use pingu_coin.Payment.External.{charged_source, store_capture, or_cancel, capture_charge}
use pingu_coin.Payment.Reconcile.{
  repeated_request, reconcile_charged, reconcile_processing, reconcile_payment, reconcile_source,
  reconcile_all, reconcile,
}

due_one :
    (x : PaymentSource) (before : ℕ)
    → x.status ≡ SourceStatus.pending
    → x.created_at < before
    → (is_pending x.status && ltb x.created_at before) ≡ true
due_one x before pending old = ground arith

module _ (sha256 : List ℕ → List ℕ) (codec : Codec) (provider : Provider) (s : PaymentStore)
    (x : PaymentSource) (p : Payment) (r : ChargeResult) where
  -- The request that is sent once more, with its answer.
  abbrev pub asked : PaymentStore
  asked = record s { calls = s.calls ++ create_intent (repeated_request p) ∷ [] }

  reconcile_source-unpaid :
      find_first (is_payment x.payment_id) s.payments ≡ some p
      → is_processing p.status ≡ true
      → (p.purpose is purpose_point_topup) ≡ false
      → order_of codec x ≡ none
      → http_result (provider.answer s.calls (create_intent (repeated_request p)) no_result)
        ≡ posted r
      → (r.status is "requires_action") ≡ true
      → reconcile_source sha256 codec provider x (calm s) ≡ (
        ok tt,
        calm (save_source (charged_source r.id x) (save_payment (succeeded_payment p) asked)),
      )
  unfolding reconcile_source find_payment reconcile_payment reconcile_processing reconcile_charged
      charge post after_intent capture_charge store_capture or_cancel top_up enqueue ◌>>=◌ statement
      transaction
  reconcile_source-unpaid looked_up processing bought alone answered waits =
      rw (looked_up, processing, answered, waits, bought, alone) refl

  -- One pending source, made before `before` and with no order, of a payment that is processing and
  -- not a top-up: where the provider answers that the customer still has to act, and no statement
  -- fails, `ReconcileProcessing` asks the provider once, with the payment's own key, and stores the
  -- payment as succeeded and the source as captured.
  pub reconcile-unpaid :
      (before : ℕ)
      → s.sources ≡ x ∷ []
      → x.status ≡ SourceStatus.pending
      → x.created_at < before
      → find_first (is_payment x.payment_id) s.payments ≡ some p
      → p.status ≡ PaymentStatus.processing
      → (p.purpose is "point_topup") ≡ false
      → order_of codec x ≡ none
      → http_result (provider.answer s.calls (create_intent (repeated_request p)) no_result)
        ≡ posted r
      → (r.status is "requires_action") ≡ true
      → (t : PaymentStore) × (reconcile sha256 codec provider before (calm s) ≡ (ok tt, calm t))
        × (find_first (λ (y : Payment). y.id == p.id) t.payments
            ≡ some (record p { status = PaymentStatus.succeeded }))
        × (t.sources ≡ record x { status = SourceStatus.captured; provider_reference = r.id } ∷ [])
        × (t.calls
            ≡ s.calls
              ++ create_intent (record {
                amount = p.amount;
                currency = p.currency;
                idempotency_key = p.idempotency_key;
                return_url = "";
                payment_method = "";
              })
                ∷ [])
  unfolding reconcile pending_before reconcile_all save_payment save_source ◌>>=◌ statement
  reconcile-unpaid before only pending old looked_up processing bought alone answered waits = (
    save_source (charged_source r.id x) (save_payment (succeeded_payment p) asked),
    rw
        (
          due before only pending old,
          reconcile_source-unpaid looked_up (rw processing refl) bought alone answered waits,
        )
        refl,
    rw there (
        find_first-replaced (λ (y : Payment). y.id) p.id
          (record p { status = PaymentStatus.succeeded }) refl s.payments there),
    rw (only, ==_refl x.id) refl,
    refl,
  )
    where
      due :
          (before : ℕ)
          → s.sources ≡ x ∷ []
          → x.status ≡ SourceStatus.pending
          → x.created_at < before
          → take 100 (
              order_by
                (λ (y : PaymentSource). y.id)
                (select (λ y. is_pending y.status && ltb y.created_at before) s.sources))
            ≡ x ∷ []
      due before only pending old = rw only (rw (due_one x before pending old) refl)

      there : exists (λ (y : Payment). y.id == p.id) s.payments ≡ true
      there = listed (λ (y : Payment). y.id) _ s.payments p p.id looked_up refl
