-- ===== src/Payment/Paid.antt =====
-- `createPoint`: a payment with points, its row of the ledger and its event are stored together.
use pingu_coin.Base.{
  ℕ, suc, ◌^◌, ◌<◌, String, List, [], ◌∷◌, ◌++◌, false, Option, none, some, ◌≡◌, ◌≢◌, ◌∙◌, ap, refl,
  exists, Bool-cases, inl, inr, length,
}
use pingu_coin.Base.Int.{pos, add64, neg64, ltb_ℤ}
use pingu_coin.Base.Text.{◌<>◌, decimal}
use pingu_coin.Base.Store.{Result, ok, err, ◌>>◌, pure}
use pingu_coin.Base.Store.Laws.{
  Leads, WhenOk, leads_bind, leads_statement, leads_pure, leads_modify, leads_weaken,
  leads_transaction,
}
use pingu_coin.Flow.{Codec, OrderCreated, topic_payment_succeeded}
use pingu_coin.Payment.Model.{
  Payment, PaymentStatus, PaymentStore, OutboxEvent, PointTransaction, kind_payment,
}
use pingu_coin.Payment.Points.{ledger, accounts_of}
use pingu_coin.Payment.Points.Audit.{Audited, entries}
use pingu_coin.Payment.Points.Posting.{IsDigest}
use pingu_coin.Payment.Points.Opening.{balance_of}
use pingu_coin.Payment.Points.Adjust.{Adjusted, adjust-Adjusted}
use pingu_coin.Payment.Rows.{insert_payment, insert_outbox, has_payment_key}
use pingu_coin.Payment.Command.{CreatePaymentCommand, new_payment}
use pingu_coin.Payment.Events.{enqueue, result_topic}
use pingu_coin.Payment.PointPayment.{pay_row, pay_points}

-- The events behind a payment: an order's payment is announced as succeeded.
abbrev pub announced :
    Codec → Payment → String → Option OrderCreated → PaymentStore → List OutboxEvent
announced codec p key none s = s.outbox
announced codec p key (some order) s =
    s.outbox
    ++ record {
      id = s.next_event;
      aggregate_id = p.id;
      topic = topic_payment_succeeded;
      key = key;
      payload =
          codec.encode_payment
            (record { order = order; payment_id = p.id; reason = ""; action_url = "" });
      attempts = 0;
      published = false;
    }
      ∷ []

module _ (sha256 : List ℕ → List ℕ) (d : IsDigest sha256) (codec : Codec)
    (c : CreatePaymentCommand) where
  -- What a payment with points that went through has stored.
  pub record PaidPoints (s : PaymentStore) (p : Payment) (t : PaymentStore) : Type 0 where
    pub stored : p ≡ record (new_payment c PaymentStatus.succeeded) { id = s.next_payment }
    pub payments : t.payments ≡ s.payments ++ p ∷ []
    pub new_key : exists (has_payment_key c.idempotency_key) s.payments ≡ false
    pub spent : balance_of c.user_id t ≡ add64 (balance_of c.user_id s) (neg64 c.amount)
    pub covered : ltb_ℤ (balance_of c.user_id t) (pos 0) ≡ false
    pub others : (v : ℕ) → v ≢ c.user_id → balance_of v t ≡ balance_of v s
    pub row : PointTransaction
    pub grown : t.transactions ≡ s.transactions ++ row ∷ []
    pub amount : row.amount ≡ neg64 c.amount
    pub audited : Audited sha256 c.user_id t
    pub outbox : t.outbox ≡ announced codec p c.idempotency_key c.order s

  module _ (s : PaymentStore) (some_user : c.user_id ≢ 0)
      (room : suc (length (entries c.user_id s)) < 2 ^ 64) where
    abbrev candidate_row : Payment
    candidate_row = record (new_payment c PaymentStatus.succeeded) { id = s.next_payment }

    abbrev with_payment : PaymentStore
    with_payment = record s {
      payments = s.payments ++ candidate_row ∷ [];
      next_payment = suc s.next_payment;
    }

    abbrev reason : String
    reason = "payment #" <> decimal s.next_payment

    abbrev AdjustedHere : PointTransaction → PaymentStore → Type 0
    AdjustedHere =
        Adjusted sha256 d c.user_id (neg64 c.amount) kind_payment reason (some s.next_payment)
          with_payment

    paid :
        (row : PointTransaction) (t : PaymentStore) (box : List OutboxEvent) (next : ℕ)
        → exists (has_payment_key c.idempotency_key) s.payments ≡ false
        → AdjustedHere row t
        → box ≡ announced codec candidate_row c.idempotency_key c.order s
        → PaidPoints s candidate_row (record t { outbox = box; next_event = next })
    unfolding ledger accounts_of
    paid row t box next fresh a announces = record {
      stored = refl;
      payments = ap (λ (x : PaymentStore). x.payments) a.rest;
      new_key = fresh;
      spent = a.account ∙ a.balance;
      covered = rw a.account a.covered;
      others = a.others;
      row = row;
      grown = a.grown;
      amount = a.moved;
      audited = record {
        chain = a.audited.chain;
        matched = a.audited.matched;
        owned = a.audited.owned;
      };
      outbox = announces;
    }

    enqueued :
        (order : Option OrderCreated) (row : PointTransaction) (t : PaymentStore)
        → c.order ≡ order
        → exists (has_payment_key c.idempotency_key) s.payments ≡ false
        → AdjustedHere row t
        → Leads
            (enqueue codec candidate_row order c.idempotency_key "" >> pure candidate_row)
            t
            (WhenOk (PaidPoints s))
    unfolding enqueue insert_outbox result_topic
    enqueued none row t e fresh a =
        leads_bind {P = λ _ u. u ≡ t} (leads_pure refl)
          (λ _ u same. leads_pure (
            rw same (
              paid row t t.outbox t.next_event fresh a
                (rw e (ap (λ (x : PaymentStore). x.outbox) a.rest)))))
          (λ _ _ _. tt)
    enqueued (some order) row t e fresh a =
        let announce = announced codec candidate_row c.idempotency_key (some order) in
        leads_modify _ (pure candidate_row)
          (leads_pure
            (paid row t (announce t) (suc t.next_event) fresh a (rw e (ap announce a.rest))))
          tt

    pay_row-PaidPoints :
        exists (has_payment_key c.idempotency_key) s.payments ≡ false
        → Leads (pay_row sha256 codec c candidate_row) with_payment (WhenOk (PaidPoints s))
    unfolding pay_row
    pay_row-PaidPoints fresh =
        leads_bind
          (adjust-Adjusted sha256 d c.user_id (neg64 c.amount) kind_payment reason
            (some s.next_payment) with_payment some_user room)
          (λ row t a. enqueued c.order row t refl fresh a) (λ _ _ _. tt)

    abbrev Inserted : Result Payment → PaymentStore → Type 0
    Inserted = WhenOk (λ p t.
        (exists (has_payment_key c.idempotency_key) s.payments ≡ false)
        × (p ≡ candidate_row)
        × (t ≡ with_payment))

    insert-Inserted :
        let (r, t) = insert_payment (new_payment c PaymentStatus.succeeded) s in Inserted r t
    unfolding insert_payment
    insert-Inserted = elim (Bool-cases (exists (has_payment_key c.idempotency_key) s.payments)) [
      | inl taken ↦ rw taken tt
      | inr fresh ↦ rw fresh (refl, refl, refl)
    ]

    abbrev pub Pays : Result Payment → PaymentStore → Type 0
    Pays (ok p) t = PaidPoints s p t
    Pays (err _) t = t ≡ s

    -- Whatever statements fail, the transaction of `createPoint` either changes nothing and returns
    -- an error, or stores a succeeded payment under a new key, moves the buyer's points by the
    -- amount (in 64 bits) to no less than 0 by one row of a ledger that `VerifyChain` accepts, leaves
    -- the other balances alone, and announces the payment of an order as succeeded; the buyer's id is
    -- not 0, the digest has 32 bytes, and the buyer's ledger less than 2^64 - 1 rows.
    pub pay_points-Pays : Leads (pay_points sha256 codec c) s Pays
    unfolding pay_points
    pay_points-Pays =
        leads_transaction
          (leads_weaken
            (leads_bind {P = Inserted} (leads_statement _ tt insert-Inserted)
              (λ p t q. rw (q.1, q.2) (pay_row-PaidPoints q.0)) (λ _ _ _. tt))
            (λ r t q. q))
          (λ _. refl)
