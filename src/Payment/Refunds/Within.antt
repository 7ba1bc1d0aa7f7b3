-- ===== src/Payment/Refunds/Within.antt =====
-- The refunds of a payment never exceed its amount.
use pingu_coin.Base.{
  ℕ, suc, ==→eq, List, [], ◌∷◌, ◌++◌, true, false, ◌&&◌, some, ◌≡◌, ◌∙◌, refl, ◌==◌, ==_refl,
  if◌then◌else◌, find_first, exists, Bool-cases, inl, inr, find_first-holds,
}
use pingu_coin.Base.Int.{
  ℤ, pos, sub64, ◌+ℤ◌, ◌-ℤ◌, ◌≤ℤ◌, ltb_ℤ, eqb_ℤ, InRange, InRange-wrap64, int_laws,
}
use pingu_coin.Base.Rows.{find_first-exists}
use pingu_coin.Base.Text.{◌<>◌, decimal}
use pingu_coin.Base.Store.{Result, ok, err, pure}
use pingu_coin.Base.Rpc.{Reply, reply, refuse}
use pingu_coin.Base.Store.Laws.{
  Leads, WhenOk, leads_bind, leads_pure, leads_statement, leads_transaction, leads_modify,
}
use pingu_coin.Payment.Model.{
  Payment, PaymentStatus, Refund, RefundStatus, PaymentStore, kind_refund,
}
use pingu_coin.Payment.Points.Keeps.{Untouched, adjust-Keeps}
use pingu_coin.Payment.Rows.{
  insert_refund, save_payment, is_payment, refunded, is_refund_of, has_succeeded,
}
use pingu_coin.Payment.Server.Cancel.{saved-found}
use pingu_coin.Payment.Refunds.{
  RefundPaymentRequest, new_refund, refunded_payment, write_rows, store_money, give_back,
  store_points,
}

-- One more refund adds its amount.
refunded-append :
    (id : ℕ) (rs : List Refund) (r : Refund)
    → (r.payment_id == id) ≡ true
    → r.status ≡ RefundStatus.succeeded
    → refunded id (rs ++ r ∷ []) ≡ refunded id rs +ℤ r.amount
unfolding refunded
refunded-append id [] r own done = rw (own, done) (grind int_laws)
refunded-append id (x ∷ rs) r own done =
    elim (Bool-cases (is_refund_of id x && has_succeeded x.status)) [
      | inl counted ↦ rw (counted, refunded-append id rs r own done) (grind int_laws)
      | inr other ↦ rw other (refunded-append id rs r own done)
    ]

-- What is left does not wrap around.
remaining-exact :
    (amount given : ℤ)
    → InRange amount
    → pos 0 ≤ℤ given
    → given ≤ℤ amount
    → sub64 amount given ≡ amount -ℤ given
unfolding sub64
remaining-exact amount given range some_given within =
    InRange-wrap64 (amount -ℤ given) (grind int_laws, grind int_laws)

total_within :
    (amount given asked : ℤ) → ltb_ℤ (amount -ℤ given) asked ≡ false → (given +ℤ asked) ≤ℤ amount
total_within amount given asked h = grind int_laws

total_complete :
    (amount given asked : ℤ) → eqb_ℤ asked (amount -ℤ given) ≡ eqb_ℤ (given +ℤ asked) amount
total_complete amount given asked = grind int_laws

module _ (request : RefundPaymentRequest) (s : PaymentStore) (p : Payment) where
  abbrev pub given : ℤ
  given = refunded p.id s.refunds

  abbrev pub Unmoved : PaymentStore → Type 0
  Unmoved t = (t.refunds ≡ s.refunds) × (t.payments ≡ s.payments)

  -- A refund that went through: `r` is added, and `q` is the payment.
  pub record Given (r : Refund) (q : Payment) (t : PaymentStore) : Type 0 where
    pub added : t.refunds ≡ s.refunds ++ r ∷ []
    pub amount : r.amount ≡ request.amount
    pub total : refunded p.id t.refunds ≡ given +ℤ request.amount
    pub bounded : refunded p.id t.refunds ≤ℤ p.amount
    pub stored : find_first (is_payment p.id) t.payments ≡ some q
    pub status : q.status ≡ (
        if eqb_ℤ (refunded p.id t.refunds) p.amount
        then PaymentStatus.refunded
        else PaymentStatus.partially_refunded)

  Given-free :
      (r : Refund) (q : Payment) (t u : PaymentStore) → Untouched t u → Given r q t → Given r q u
  Given-free r q t u same g = record {
    added = same.refunds ∙ g.added;
    amount = g.amount;
    total = rw same.refunds g.total;
    bounded = rw same.refunds g.bounded;
    stored = rw same.payments g.stored;
    status = rw same.refunds g.status;
  }

  -- A refund goes through, or refunds and payments are as they were.
  abbrev pub Stored : Result (Refund × Payment) → PaymentStore → Type 0
  Stored (ok (r, q)) t = Given r q t
  Stored (err _) t = Unmoved t

  abbrev pub Refunded : Result (Reply (Refund × Payment)) → PaymentStore → Type 0
  Refunded (ok (reply (r, q))) t = Given r q t
  Refunded (ok (refuse _ _)) t = Unmoved t
  Refunded (err _) t = Unmoved t

  module _ (looked_up : find_first (is_payment request.payment_id) s.payments ≡ some p)
      (range : InRange p.amount) (some_given : pos 0 ≤ℤ given) (within : given ≤ℤ p.amount)
      (fits : ltb_ℤ (sub64 p.amount given) request.amount ≡ false) where
    abbrev row : PaymentStore → Refund
    row t = record (new_refund request p) { id = t.next_refund }

    abbrev with_row : PaymentStore → PaymentStore
    with_row t = record t { refunds = t.refunds ++ row t ∷ []; next_refund = suc t.next_refund }

    abbrev left : ℤ
    left = sub64 p.amount given

    abbrev paid_back : Payment
    paid_back = refunded_payment request.amount left p

    exact : left ≡ p.amount -ℤ given
    exact = remaining-exact p.amount given range some_given within

    present : exists (is_payment p.id) s.payments ≡ true
    present =
        let same =
          ==→eq p.id request.payment_id
            (find_first-holds (is_payment request.payment_id) s.payments p looked_up) in
        rw same (find_first-exists (is_payment request.payment_id) s.payments p looked_up)

    sum_after :
        (t : PaymentStore)
        → Unmoved t
        → refunded p.id (with_row t).refunds ≡ given +ℤ request.amount
    sum_after t e = rw e.0 (refunded-append p.id s.refunds (row t) (==_refl p.id) refl)

    written-Given :
        (t : PaymentStore)
        → Unmoved t
        → Given (row t) paid_back (save_payment paid_back (with_row t))
    unfolding save_payment
    written-Given t e = record {
      added = rw e.0 refl;
      amount = refl;
      total = sum_after t e;
      bounded = rw (sum_after t e) (total_within p.amount given request.amount (rw exact at fits));
      stored = saved-found paid_back (with_row t) (rw e.1 present);
      status = rw (sum_after t e, ← total_complete p.amount given request.amount, ← exact) refl;
    }

    write-Given :
        (t : PaymentStore)
        → Unmoved t
        → Leads (write_rows request p left (row t)) (with_row t) (WhenOk (λ x u. Given x.0 x.1 u))
    unfolding write_rows
    write-Given t e = leads_modify _ (pure (row t, paid_back)) (leads_pure (written-Given t e)) tt

    abbrev Written : PaymentStore → Result Refund → PaymentStore → Type 0
    Written t = WhenOk (λ r u. (r ≡ row t) × (u ≡ with_row t))

    inserted-Written :
        (t : PaymentStore) → let (r, u) = insert_refund (new_refund request p) t in Written t r u
    unfolding insert_refund
    inserted-Written t = (refl, refl)

    pub store_money-Stored :
        (t : PaymentStore) → Unmoved t → Leads (store_money request p left) t Stored
    unfolding store_money
    store_money-Stored t e =
        leads_transaction
          (leads_bind {P = Written t} (leads_statement _ tt (inserted-Written t))
            (λ r u w. rw (w.0, w.1) (write-Given t e)) (λ _ _ _. tt))
          (λ _. e)

    give_back-Given :
        (sha256 : List ℕ → List ℕ) (t : PaymentStore)
        → Unmoved t
        → Leads
            (give_back sha256 request p left (row t))
            (with_row t)
            (WhenOk (λ x u. Given x.0 x.1 u))
    unfolding give_back
    give_back-Given sha256 t e =
        leads_bind (write-Given t e)
          (λ x u g.
            leads_bind {P = λ _ v. Given x.0 x.1 v}
              (adjust-Keeps (Given x.0 x.1) (Given-free x.0 x.1) sha256 p.user_id (row t).amount
                kind_refund ("refund #" <> decimal (row t).id) (some p.id) u g)
              (λ _ v h. leads_pure h) (λ _ _ _. tt))
          (λ _ _ _. tt)

    pub store_points-Stored :
        (sha256 : List ℕ → List ℕ) (t : PaymentStore)
        → Unmoved t
        → Leads (store_points sha256 request p left) t Stored
    unfolding store_points
    store_points-Stored sha256 t e =
        leads_transaction
          (leads_bind {P = Written t} (leads_statement _ tt (inserted-Written t))
            (λ r u w. rw (w.0, w.1) (give_back-Given sha256 t e)) (λ _ _ _. tt))
          (λ _. e)
