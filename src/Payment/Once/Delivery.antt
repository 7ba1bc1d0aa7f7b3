-- ===== src/Payment/Once/Delivery.antt =====
-- What a webhook does when no statement fails.
use pingu_coin.Base.{
  ℕ, List, [], ◌∷◌, ◌++◌, true, false, some, ◌≡◌, refl, find_first, exists, ◌||◌, ◌==◌,
}
use pingu_coin.Base.Rows.{listed, find_first-replaced}
use pingu_coin.Base.Text.{◌is◌}
use pingu_coin.Base.Store.{ok, calm, ◌>>=◌, statement, transaction}
use pingu_coin.Flow.{Codec, OrderCreated, topic_payment_succeeded, topic_payment_failed}
use pingu_coin.Payment.Model.{
  PaymentStatus, SourceStatus, Payment, PaymentSource, PaymentStore, purpose_point_topup,
}
use pingu_coin.Payment.Rows.{
  find_payment, find_by_reference, save_payment, save_source, insert_outbox, insert_receipt,
  is_payment, has_reference, is_receipt,
}
use pingu_coin.Payment.Events.{
  ProviderEvent, closed_payment, closed_source, succeeded_payment, captured_source, is_canceled,
  order_of, enqueue, result_topic, top_up, apply_success, apply_failure, apply_event, receive,
  settle_event, settle_source, handle_provider_event,
}

module _ (sha256 : List ℕ → List ℕ) (codec : Codec) (event : ProviderEvent) where
  -- A new event about a payment that is being processed, and the rows that it finds.
  pub record Fresh (s : PaymentStore) (x : PaymentSource) (p : Payment) (order : OrderCreated)
      : Type 0 where
    pub named : ((event.id is "") || (event.charge_id is "")) ≡ false
    pub source_found : find_first (has_reference event.charge_id) s.sources ≡ some x
    pub payment_found : find_first (is_payment x.payment_id) s.payments ≡ some p
    pub unseen : exists (is_receipt x.provider event.id) s.receipts ≡ false
    pub processed : p.status ≡ PaymentStatus.processing
    pub ordered : order_of codec x ≡ some order

  -- The tables with the receipt.
  abbrev pub receipted : PaymentSource → PaymentStore → PaymentStore
  receipted x s = record s {
    receipts = s.receipts ++ record { provider = x.provider; event_id = event.id } ∷ [];
  }

  success-runs :
      (s : PaymentStore) (x : PaymentSource) (p : Payment) (order : OrderCreated)
      → Fresh s x p order
      → (event.type is "payment_intent.succeeded") ≡ true
      → (p.purpose is purpose_point_topup) ≡ false
      → handle_provider_event sha256 codec event (calm s) ≡ (
        ok tt,
        calm (
            insert_outbox p.id topic_payment_succeeded p.idempotency_key
              (codec.encode_payment
                (record { order = order; payment_id = p.id; reason = ""; action_url = "" }))
              (save_source
                (captured_source x)
                (save_payment (succeeded_payment p) (receipted x s)))),
      )
  unfolding handle_provider_event find_by_reference settle_source find_payment settle_event
      insert_receipt receive apply_event apply_success top_up enqueue result_topic save_payment
      save_source insert_outbox ◌>>=◌ statement transaction
  success-runs s x p order f kind purchase =
      rw
        (f.named, f.source_found, f.payment_found, f.unseen, f.processed, kind, purchase, f.ordered)
        refl

  -- What a success leaves: the payment and its source by their ids, one more event and receipt, and
  -- no other table changed.
  pub record Delivered (s : PaymentStore) (x : PaymentSource) (p : Payment) (order : OrderCreated)
      (t : PaymentStore) : Type 0 where
    pub payment :
        find_first (λ (y : Payment). y.id == p.id) t.payments
        ≡ some (record p { status = PaymentStatus.succeeded })
    pub source :
        find_first (λ (y : PaymentSource). y.id == x.id) t.sources
        ≡ some (record x { status = SourceStatus.captured; action_url = "" })
    pub announced :
        t.outbox
        ≡ s.outbox
          ++ record {
            id = s.next_event;
            aggregate_id = p.id;
            topic = "payments.succeeded.v1";
            key = p.idempotency_key;
            payload =
                codec.encode_payment
                  (record { order = order; payment_id = p.id; reason = ""; action_url = "" });
            attempts = 0;
            published = false;
          }
            ∷ []
    pub receipt :
        t.receipts ≡ s.receipts ++ record { provider = x.provider; event_id = event.id } ∷ []
    pub accounts : t.accounts ≡ s.accounts
    pub transactions : t.transactions ≡ s.transactions

  -- A new event of success about a purchase that is being processed, while no statement fails: the
  -- payment has the status succeeded, its source the status captured and no address for the
  -- customer, nothing else of either has changed, the order's payment is announced by one event on
  -- the topic of success, one receipt is stored, and neither an account nor a ledger has changed.
  pub success-Delivered :
      (s : PaymentStore) (x : PaymentSource) (p : Payment) (order : OrderCreated)
      → Fresh s x p order
      → (event.type is "payment_intent.succeeded") ≡ true
      → (p.purpose is "point_topup") ≡ false
      → (t : PaymentStore) × (handle_provider_event sha256 codec event (calm s) ≡ (ok tt, calm t))
        × Delivered s x p order t
  unfolding save_payment save_source insert_outbox
  success-Delivered s x p order f kind purchase = (
    _,
    success-runs s x p order f kind purchase,
    record {
      payment = rw there (
          find_first-replaced (λ (y : Payment). y.id) p.id
            (record p { status = PaymentStatus.succeeded }) refl s.payments there);
      source = rw known (
          find_first-replaced (λ (y : PaymentSource). y.id) x.id
            (record x { status = SourceStatus.captured; action_url = "" }) refl s.sources known);
      announced = refl;
      receipt = refl;
      accounts = refl;
      transactions = refl;
    },
  )
    where
      there : exists (λ (y : Payment). y.id == p.id) s.payments ≡ true
      there = listed (λ (y : Payment). y.id) _ s.payments p p.id f.payment_found refl

      known : exists (λ (y : PaymentSource). y.id == x.id) s.sources ≡ true
      known = listed (λ (y : PaymentSource). y.id) _ s.sources x x.id f.source_found refl

  -- A new event of failure or cancellation about a payment that is being processed marks the
  -- payment and its source as failed or canceled, and announces the order's payment on the topic
  -- of failure with the event's type as the reason, while no statement fails.
  pub failure-delivered :
      (s : PaymentStore) (x : PaymentSource) (p : Payment) (order : OrderCreated)
      → Fresh s x p order
      → (event.type is "payment_intent.succeeded") ≡ false
      → (event.type is "") ≡ false
      → ((event.type is "payment_intent.failed") || is_canceled event.type) ≡ true
      → handle_provider_event sha256 codec event (calm s) ≡ (
        ok tt,
        calm (
            insert_outbox p.id topic_payment_failed p.idempotency_key
              (codec.encode_payment
                (record { order = order; payment_id = p.id; reason = event.type; action_url = "" }))
              (save_source
                (closed_source event.type x)
                (save_payment (closed_payment event.type p) (receipted x s)))),
      )
  unfolding handle_provider_event find_by_reference settle_source find_payment settle_event
      insert_receipt receive apply_event apply_failure enqueue result_topic save_payment save_source
      insert_outbox ◌>>=◌ statement transaction
  failure-delivered s x p order f kind text closes =
      rw
        (
          f.named, f.source_found, f.payment_found, f.unseen, f.processed, kind, closes, f.ordered,
          text,
        )
        refl
