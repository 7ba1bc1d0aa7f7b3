-- ===== src/Payment/Rows.antt =====
-- services/payment-api/internal/repository: payment_repository.go, payment_source_repository.go,
-- outbox_repository.go and refund_repository.go.
use pingu_coin.Base.{
  ℕ, suc, String, List, [], ◌∷◌, ◌++◌, Bool, true, false, ◌&&◌, ◌==◌, if◌then◌else◌, select,
  find_first, exists, update_where, reverse, take, order_by, not, ltb,
}
use pingu_coin.Base.Text.{◌is◌}
use pingu_coin.Base.Store.{Result, ok, err, duplicated_key, M, query, found}
use pingu_coin.Base.Int.{ℤ, pos, ◌+ℤ◌}
use pingu_coin.Payment.Model.{
  Payment, PaymentSource, SourceStatus, Refund, RefundStatus, OutboxEvent, Receipt, PaymentStore,
}

abbrev pub is_payment : ℕ → Payment → Bool
is_payment id p = p.id == id

abbrev pub has_payment_key : String → Payment → Bool
has_payment_key key p = p.idempotency_key is key

-- The unique index on `idempotency_key`, and the id from the sequence.
unfoldable pub insert_payment : Payment → PaymentStore → Result Payment × PaymentStore
insert_payment p s =
    let row = record p { id = s.next_payment } in
    if exists (has_payment_key p.idempotency_key) s.payments
    then (err duplicated_key, s)
    else (ok row, record s { payments = s.payments ++ row ∷ []; next_payment = suc s.next_payment })

-- `db.Save`: the row of that id is replaced, and a row that is not there is added.
unfoldable pub save_payment : Payment → PaymentStore → PaymentStore
save_payment p s = record s {
  payments =
      if exists (is_payment p.id) s.payments
      then update_where (is_payment p.id) (λ _. p) s.payments
      else s.payments ++ p ∷ [];
}

unfoldable pub find_payment : ℕ → M PaymentStore Payment
find_payment id = query (λ s. found (find_first (is_payment id) s.payments))

unfoldable pub find_by_key : String → M PaymentStore Payment
find_by_key key = query (λ s. found (find_first (has_payment_key key) s.payments))

-- The newest payment first, of one user or, at 0, of all.
unfoldable pub find_payments : ℕ → M PaymentStore (List Payment)
find_payments user = query (λ s.
    ok (reverse (if user == 0 then s.payments else select (λ p. p.user_id == user) s.payments)))

abbrev pub is_source : ℕ → PaymentSource → Bool
is_source id x = x.id == id

abbrev pub is_source_of : ℕ → PaymentSource → Bool
is_source_of payment x = x.payment_id == payment

abbrev pub has_reference : String → PaymentSource → Bool
has_reference reference x = x.provider_reference is reference

-- The unique index on `payment_id`.
unfoldable pub insert_source : PaymentSource → PaymentStore → Result PaymentSource × PaymentStore
insert_source x s =
    let row = record x { id = s.next_source } in
    if exists (is_source_of x.payment_id) s.sources
    then (err duplicated_key, s)
    else (ok row, record s { sources = s.sources ++ row ∷ []; next_source = suc s.next_source })

unfoldable pub save_source : PaymentSource → PaymentStore → PaymentStore
save_source x s = record s {
  sources =
      if exists (is_source x.id) s.sources
      then update_where (is_source x.id) (λ _. x) s.sources
      else s.sources ++ x ∷ [];
}

unfoldable pub find_source : ℕ → M PaymentStore PaymentSource
find_source payment = query (λ s. found (find_first (is_source_of payment) s.sources))

unfoldable pub find_by_reference : String → M PaymentStore PaymentSource
find_by_reference reference = query (λ s. found (find_first (has_reference reference) s.sources))

abbrev pub is_pending : SourceStatus → Bool
is_pending SourceStatus.pending = true
is_pending _ = false

-- `PendingBefore`
unfoldable pub pending_before : ℕ → ℕ → M PaymentStore (List PaymentSource)
pending_before before limit = query (λ s. ok (
    take limit (
      order_by (λ (x : PaymentSource). x.id)
        (select (λ x. is_pending x.status && ltb x.created_at before) s.sources))))

unfoldable pub insert_outbox : ℕ → String → String → String → PaymentStore → PaymentStore
insert_outbox aggregate topic key payload s =
    let event : OutboxEvent = record {
      id = s.next_event;
      aggregate_id = aggregate;
      topic = topic;
      key = key;
      payload = payload;
      attempts = 0;
      published = false;
    } in
    record s { outbox = s.outbox ++ event ∷ []; next_event = suc s.next_event }

abbrev pub is_receipt : String → String → Receipt → Bool
is_receipt provider event r = (r.provider is provider) && (r.event_id is event)

-- `ON CONFLICT DO NOTHING`; the answer is whether a row was added.
unfoldable pub insert_receipt : String → String → PaymentStore → Result Bool × PaymentStore
insert_receipt provider event s =
    let receipt : Receipt = record { provider = provider; event_id = event } in
    if exists (is_receipt provider event) s.receipts
    then (ok false, s)
    else (ok true, record s { receipts = s.receipts ++ receipt ∷ [] })

abbrev pub is_unpublished : OutboxEvent → Bool
is_unpublished e = not e.published

-- `Pending`: by id, which is the order of the rows.
unfoldable pub pending_events : ℕ → M PaymentStore (List OutboxEvent)
pending_events limit =
    query
      (λ s. ok (take limit (order_by (λ (e : OutboxEvent). e.id) (select is_unpublished s.outbox))))

abbrev pub is_event : ℕ → OutboxEvent → Bool
is_event id e = e.id == id

-- `MarkPublished`
unfoldable pub mark_published : ℕ → PaymentStore → PaymentStore
mark_published id s = record s {
  outbox =
      update_where (λ e. is_event id e && is_unpublished e)
        (λ e. record e { published = true; attempts = suc e.attempts }) s.outbox;
}

-- `MarkAttempt`
unfoldable pub mark_attempt : ℕ → PaymentStore → PaymentStore
mark_attempt id s = record s {
  outbox = update_where (is_event id) (λ e. record e { attempts = suc e.attempts }) s.outbox;
}

unfoldable pub insert_refund : Refund → PaymentStore → Result Refund × PaymentStore
insert_refund r s =
    let row = record r { id = s.next_refund } in
    (ok row, record s { refunds = s.refunds ++ row ∷ []; next_refund = suc s.next_refund })

abbrev pub is_refund_of : ℕ → Refund → Bool
is_refund_of payment r = r.payment_id == payment

-- The newest refund first, of one payment or, at 0, of all.
unfoldable pub find_refunds : ℕ → M PaymentStore (List Refund)
find_refunds payment = query (λ s.
    ok (reverse (if payment == 0 then s.refunds else select (is_refund_of payment) s.refunds)))

abbrev pub has_succeeded : RefundStatus → Bool
has_succeeded RefundStatus.succeeded = true
has_succeeded _ = false

-- The sum of the amounts that were given back.
unfoldable pub refunded : ℕ → List Refund → ℤ
refunded payment [] = pos 0
refunded payment (r ∷ rs) =
    let rest = refunded payment rs in
    if is_refund_of payment r && has_succeeded r.status then r.amount +ℤ rest else rest

-- `SumSucceededAmount`
unfoldable pub sum_succeeded : ℕ → M PaymentStore ℤ
unfolding refunded
sum_succeeded payment = query (λ s. ok (refunded payment s.refunds))
