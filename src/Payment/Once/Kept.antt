-- ===== src/Payment/Once/Kept.antt =====
-- What a webhook writes keeps its receipt, and the source that it is about.
use mathlib.Core.Bool.{true≢false}
use mathlib.Core.Option.{some-injective}
use pingu_coin.Base.{
  ℕ, String, List, [], ◌∷◌, Bool, true, ◌&&◌, ◌||◌, Option, none, some, ◌≡◌, ◌∙◌, sym, refl, ◌==◌,
  ==_refl, ap, if◌then◌else◌, arith, find_first, find_first-append_some, exists, update_where,
  Bool-cases, inl, inr,
}
use pingu_coin.Base.Text.{◌is◌}
use pingu_coin.Base.Store.{invalid_event, throw, pure}
use pingu_coin.Base.Store.Keeps.{Keeps, Keeps-pure, Keeps-throw, Keeps-if, Keeps-modify, Keeps-bind}
use pingu_coin.Flow.{Codec, OrderCreated}
use pingu_coin.Payment.Model.{Payment, PaymentSource, PaymentStore}
use pingu_coin.Payment.Rows.{save_payment, save_source, insert_outbox, is_source, has_reference}
use pingu_coin.Payment.Events.{
  ProviderEvent, closed_payment, closed_source, succeeded_payment, captured_source, is_canceled,
  order_of, is_processing, enqueue, apply_success, apply_failure, apply_event, receive,
}
use pingu_coin.Payment.Once.Mark.{Marked, Same-Marked, top_up-Marked}

saved-found :
    (reference : String) (x y : PaymentSource) (xs : List PaymentSource)
    → find_first (has_reference reference) xs ≡ some x
    → x.id ≡ y.id
    → (y.provider_reference is reference) ≡ true
    → x.provider ≡ y.provider
    → (z : PaymentSource) × (find_first
          (has_reference reference)
          (update_where (is_source y.id) (λ _. y) xs)
        ≡ some z)
      × (z.provider ≡ y.provider)
      × (z.id ≡ y.id)
saved-found reference x y [] h e own same = ground arith
saved-found reference x y (w ∷ xs) h e own same = elim (Bool-cases (w.id == y.id)) [
  | inl here ↦ rw (here, own) (y, refl, refl, refl)
  | inr other ↦ elim (Bool-cases (w.provider_reference is reference)) [
    | inl found_here ↦
        let same_row = some-injective w x (rw found_here at h) in
        let same_number = ap (λ (v : PaymentSource). v.id) same_row ∙ e in
        absurd (true≢false (sym (==_refl y.id) ∙ (rw same_number at other)))
    | inr passed ↦ rw (other, passed) (saved-found reference x y xs (rw passed at h) e own same)
  ]
]

module _ (x : PaymentSource) (event : ProviderEvent) where
  save_payment-Marked :
      (p : Payment) (s : PaymentStore) → Marked x event s → Marked x event (save_payment p s)
  unfolding save_payment
  save_payment-Marked p s m = Same-Marked x event s _ refl refl m

  save_source-Marked :
      (y : PaymentSource)
      → y.id ≡ x.id
      → y.provider ≡ x.provider
      → (y.provider_reference is event.charge_id) ≡ true
      → (s : PaymentStore) → Marked x event s
      → Marked x event (save_source y s)
  unfolding save_source
  save_source-Marked y e same own s m = elim (Bool-cases (exists (is_source y.id) s.sources)) [
    | inl there ↦
        let (z, looked_up, provider, id) =
          saved-found event.charge_id m.row y s.sources m.looked_up (m.same_id ∙ sym e) own
            (m.same_provider ∙ sym same) in
        record {
          received = m.received;
          row = z;
          looked_up = rw there looked_up;
          same_provider = provider ∙ same;
          same_id = id ∙ e;
        }
    | inr missing ↦ record {
      received = m.received;
      row = m.row;
      looked_up = rw missing (
          find_first-append_some (has_reference event.charge_id) s.sources (y ∷ []) m.row
            m.looked_up);
      same_provider = m.same_provider;
      same_id = m.same_id;
    }
  ]

  module _ (sha256 : List ℕ → List ℕ) (codec : Codec) where
    enqueue-Keeps :
        (payment : Payment) (order : Option OrderCreated) (key reason : String)
        → Keeps (Marked x event) (enqueue codec payment order key reason)
    unfolding enqueue insert_outbox
    enqueue-Keeps payment none key reason = Keeps-pure tt
    enqueue-Keeps payment (some order) key reason =
        Keeps-modify _ (λ s m. Same-Marked x event s _ refl refl m)

    apply_failure-Keeps :
        (type : String) (payment : Payment)
        → (x.provider_reference is event.charge_id) ≡ true
        → Keeps (Marked x event) (apply_failure sha256 codec type payment x)
    unfolding apply_failure
    apply_failure-Keeps type payment own =
        Keeps-bind _ _ (Keeps-modify _ (save_payment-Marked (closed_payment type payment))) (λ _.
          Keeps-bind _ _ (Keeps-modify _ (save_source-Marked (closed_source type x) refl refl own))
            (λ _.
              enqueue-Keeps (closed_payment type payment) (order_of codec x) payment.idempotency_key
                type))

    apply_success-Keeps :
        (payment : Payment)
        → (x.provider_reference is event.charge_id) ≡ true
        → Keeps (Marked x event) (apply_success sha256 codec payment x)
    unfolding apply_success
    apply_success-Keeps payment own =
        Keeps-bind _ _ (Keeps-modify _ (save_payment-Marked (succeeded_payment payment))) (λ _.
          Keeps-bind _ _ (Keeps-modify _ (save_source-Marked (captured_source x) refl refl own))
            (λ _. Keeps-bind _ _ (top_up-Marked x event sha256 payment) (λ _.
              enqueue-Keeps (succeeded_payment payment) (order_of codec x) payment.idempotency_key
                "")))

    apply_event-Keeps :
        (type : String) (payment : Payment)
        → (x.provider_reference is event.charge_id) ≡ true
        → Keeps (Marked x event) (apply_event sha256 codec type payment x)
    unfolding apply_event
    apply_event-Keeps type payment own =
        let closes = apply_failure sha256 codec type payment x in
        let fails = (type is "payment_intent.failed") || is_canceled type in
        Keeps-if (type is "payment_intent.succeeded") (apply_success sha256 codec payment x)
          (if fails then closes else throw invalid_event) (apply_success-Keeps payment own)
          (Keeps-if fails closes (throw invalid_event) (apply_failure-Keeps type payment own)
            (Keeps-throw invalid_event))

    pub receive-Keeps :
        (type : String) (payment : Payment) (fresh : Bool)
        → (x.provider_reference is event.charge_id) ≡ true
        → Keeps (Marked x event) (receive sha256 codec type payment x fresh)
    unfolding receive
    receive-Keeps type payment fresh own =
        Keeps-if (fresh && is_processing payment.status) (apply_event sha256 codec type payment x)
          (pure tt) (apply_event-Keeps type payment own) (Keeps-pure tt)
