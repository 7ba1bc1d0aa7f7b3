-- ===== src/Payment/Once.antt =====
-- A webhook that the provider sends again changes nothing.
pub mod Mark
pub mod Kept
pub mod Delivery
use mathlib.Core.Bool.{true≢false}
use mathlib.Core.Option.{some-injective}
use pingu_coin.Base.{
  ℕ, String, List, [], ◌∷◌, ◌++◌, Bool, true, false, ◌&&◌, ◌||◌, Option, none, some, ◌≡◌, ◌∙◌, sym,
  refl, ◌==◌, ==→eq, ==_refl, ap, if◌then◌else◌, arith, find_first, find_first-append_some,
  find_first-holds, not, exists, update_where, Bool-cases, inl, inr,
}
use pingu_coin.Base.Int.{ℤ, pos, add64, ltb_ℤ}
use pingu_coin.Base.Text.{◌is◌, ◌<>◌, decimal, is_refl}
use pingu_coin.Base.Store.{
  Result, ok, err, Error, M, ◌>>=◌, ◌>>◌, found, statement, invalid_event, insufficient_points,
  throw, pure,
}
use pingu_coin.Base.Store.Laws.{
  Leads, WhenOk, leads_weaken, leads_query, leads_step, leads_guard, leads_transaction, leads_pure,
  leads_statement, leads_bind,
}
use pingu_coin.Base.Store.Keeps.{
  Keeps, Keeps-pure, Keeps-throw, Keeps-query, Keeps-statement, Keeps-if, Keeps-modify, Keeps-bind,
  Keeps-attempt,
}
use pingu_coin.Flow.{Codec, OrderCreated}
use pingu_coin.Payment.Model.{
  Payment, PaymentSource, PaymentStore, Receipt, PointAccount, PointTransaction, kind_credit,
  purpose_point_topup,
}
use pingu_coin.Payment.Points.{
  get_account, open_account, insert_account, verify_chain, match_entries, match_accounts, post,
  adjust_opened, adjust, insert_entry, set_balance, seal, place, draft,
}
use pingu_coin.Payment.Points.Audit.{Audit, verify_chain-Audit}
use pingu_coin.Payment.Rows.{
  find_payment, find_by_reference, save_payment, save_source, insert_outbox, insert_receipt,
  is_source, has_reference, is_receipt,
}
use pingu_coin.Payment.Events.{
  ProviderEvent, closed_payment, closed_source, succeeded_payment, captured_source, is_canceled,
  order_of, is_processing, enqueue, top_up, apply_success, apply_failure, apply_event, receive,
  settle_event, settle_source, handle_provider_event,
}
use pingu_coin.Payment.Once.Mark.{Marked}
use pingu_coin.Payment.Once.Kept.{receive-Keeps}

found→some : {A : Type 0} (o : Option A) (a : A) → found o ≡ ok a → o ≡ some a
found→some none a e = cc
found→some (some b) a e = cc

exists-receipt :
    (provider id : String) (rs : List Receipt)
    → exists (is_receipt provider id) (rs ++ record { provider = provider; event_id = id } ∷ [])
      ≡ true
exists-receipt provider id [] = rw (is_refl provider, is_refl id) refl
exists-receipt provider id (r ∷ rs) = ground (arith, exists-receipt provider id rs)

insert_receipt-Marked :
    (x : PaymentSource) (event : ProviderEvent) (s : PaymentStore)
    → find_first (has_reference event.charge_id) s.sources ≡ some x
    → Marked x event (insert_receipt x.provider event.id s).1
unfolding insert_receipt
insert_receipt-Marked x event s e =
    elim (Bool-cases (exists (is_receipt x.provider event.id) s.receipts)) [
      | inl there ↦ rw there (record {
        received = there;
        row = x;
        looked_up = e;
        same_provider = refl;
        same_id = refl;
      })
      | inr missing ↦ rw missing (record {
        received = exists-receipt x.provider event.id s.receipts;
        row = x;
        looked_up = e;
        same_provider = refl;
        same_id = refl;
      })
    ]

module _ (sha256 : List ℕ → List ℕ) (codec : Codec) (event : ProviderEvent) where
  abbrev Left : PaymentSource → PaymentStore → Result (Unit {0}) → PaymentStore → Type 0
  Left x s (ok _) t = Marked x event t
  Left x s (err _) t = t ≡ s

  settled-Left :
      (x : PaymentSource) (payment : Payment) (s : PaymentStore)
      → find_first (has_reference event.charge_id) s.sources ≡ some x
      → Leads (settle_event sha256 codec event x payment) s (Left x s)
  unfolding settle_event
  settled-Left x payment s e =
      let own = find_first-holds (has_reference event.charge_id) s.sources x e in
      leads_transaction
        (leads_bind {P = WhenOk (λ _ t. Marked x event t)}
          (leads_statement _ tt
            (recorded (insert_receipt x.provider event.id s) (insert_receipt-Marked x event s e)))
          (λ fresh t m.
            leads_weaken (receive-Keeps x event sha256 codec event.type payment fresh own t m)
              inside)
          (λ _ _ _. tt))
        (λ _. refl)
    where
      recorded :
          (p : Result Bool × PaymentStore)
          → Marked x event p.1
          → WhenOk (λ _ t. Marked x event t) p.0 p.1
      recorded (ok _, t) m = m
      recorded (err _, t) m = tt

      inside :
          (r : Result (Unit {0})) (t : PaymentStore)
          → Marked x event t
          → WhenOk (λ (u : Unit {0}) t. Left x s (ok u) t) r t
      inside (ok _) t m = m
      inside (err _) t m = tt

  -- With its receipt in the table an event changes nothing.
  repeated :
      (y : PaymentSource) (payment : Payment) (s : PaymentStore)
      → exists (is_receipt y.provider event.id) s.receipts ≡ true
      → Leads (settle_event sha256 codec event y payment) s (λ _ t. t ≡ s)
  unfolding settle_event insert_receipt receive
  repeated y payment s received =
      leads_transaction
        (leads_bind {P = λ r t. (t ≡ s) × WhenOk (λ fresh _. fresh ≡ false) r t}
          (leads_statement (insert_receipt y.provider event.id) (refl, tt)
            (rw received (refl, refl)))
          (λ fresh t q. rw (q.1, q.0) (leads_pure refl)) (λ _ _ _. tt))
        (λ _. refl)

  Marked-repeated :
      (x : PaymentSource) (s : PaymentStore)
      → Marked x event s
      → Leads (handle_provider_event sha256 codec event) s (λ _ t. t ≡ s)
  unfolding handle_provider_event find_by_reference settle_source find_payment
  Marked-repeated x s m =
      leads_guard (not ((event.id is "") || (event.charge_id is ""))) invalid_event _
        (λ _. leads_query _ (settle_source sha256 codec event) same_source (λ _. refl)) refl
    where
      same_source :
          (y : PaymentSource)
          → found (find_first (has_reference event.charge_id) s.sources) ≡ ok y
          → Leads (settle_source sha256 codec event y) s (λ _ t. t ≡ s)
      same_source y e =
          let same_row = some-injective m.row y (sym m.looked_up ∙ found→some _ y e) in
          let provider = ap (λ (v : PaymentSource). v.provider) same_row in
          leads_query _ (settle_event sha256 codec event y)
            (λ payment _. repeated y payment s (rw (sym provider ∙ m.same_provider) m.received))
            (λ _. refl)

  -- What a webhook leaves: on success a store that the same webhook no longer changes.
  abbrev pub Settled : PaymentStore → Result (Unit {0}) → PaymentStore → Type 0
  Settled s (ok _) t = Leads (handle_provider_event sha256 codec event) t (λ _ u. u ≡ t)
  Settled s (err _) t = t ≡ s

  -- Whatever statements fail, `HandleProviderEvent` either returns an error and changes no row, or
  -- leaves rows that no further delivery of the same event changes, whatever fails then.
  pub handle_provider_event-Settled :
      (s : PaymentStore) → Leads (handle_provider_event sha256 codec event) s (Settled s)
  unfolding handle_provider_event find_by_reference settle_source find_payment
  handle_provider_event-Settled s =
      leads_guard (not ((event.id is "") || (event.charge_id is ""))) invalid_event _
        (λ _. leads_query _ (settle_source sha256 codec event) first (λ _. refl)) refl
    where
      closing :
          (x : PaymentSource) (r : Result (Unit {0})) (t : PaymentStore)
          → Left x s r t
          → Settled s r t
      closing x (ok _) t m = Marked-repeated x t m
      closing x (err _) t e = e

      first :
          (x : PaymentSource)
          → found (find_first (has_reference event.charge_id) s.sources) ≡ ok x
          → Leads (settle_source sha256 codec event x) s (Settled s)
      first x e =
          leads_query _ (settle_event sha256 codec event x)
            (λ payment _. leads_weaken (settled-Left x payment s (found→some _ x e)) (closing x))
            (λ _. refl)
