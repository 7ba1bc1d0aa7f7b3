-- ===== src/Payment/Publisher/Progress.antt =====
-- The publisher sends the events in order, and marks none that the broker has not acknowledged.
use pingu_coin.Base.{
  ℕ, suc, List, [], ◌∷◌, ◌++◌, Bool, true, ◌&&◌, ◌≡◌, ◌∙◌, refl, sym, ap, ◌==◌, map, take, order_by,
  select, update_where, Bool-cases, inl, inr, ◌⊎◌,
}
use mathlib.Core.List.{append_assoc, append-nil}
use pingu_coin.Base.Store.{Result, ok, err, throw}
use pingu_coin.Base.Store.Laws.{
  Leads, leads_bind, leads_pure, leads_throw, leads_statement, leads_weaken, leads_attempt,
  leads_query,
}
use pingu_coin.Payment.Model.{OutboxEvent, PaymentStore}
use pingu_coin.Payment.Rows.{pending_events, mark_published, mark_attempt, is_unpublished, is_event}
use pingu_coin.Payment.Publisher.{
  produce, message, produced, publish_event, publish_events, publish_batch,
}

-- The rows once the events are marked.
abbrev pub marked : List OutboxEvent → List OutboxEvent → List OutboxEvent
marked [] rows = rows
marked (e ∷ es) rows = marked es (
    update_where (λ x. is_event e.id x && is_unpublished x)
      (λ x. record x { published = true; attempts = suc x.attempts }) rows)

abbrev pub flags : List OutboxEvent → List Bool
flags rows = map (λ (e : OutboxEvent). e.published) rows

-- The events up to a failure: `sent` of them are acknowledged, and `done` are marked.
pub record Prefix (es : List OutboxEvent) (s t : PaymentStore) : Type 0 where
  pub sent : ℕ
  pub done : ℕ
  pub behind : (sent ≡ done) ⊎ (sent ≡ suc done)
  pub acknowledged : t.acknowledged ≡ s.acknowledged ++ map message (take sent es)
  pub outbox : flags t.outbox ≡ flags (marked (take done es) s.outbox)

abbrev pub Sent : List OutboxEvent → PaymentStore → Result (Unit {0}) → PaymentStore → Type 0
Sent es s (ok _) t =
    (t.acknowledged ≡ s.acknowledged ++ map message es) × (t.outbox ≡ marked es s.outbox)
Sent es s (err _) t = Prefix es s t

flags-attempt :
    (id : ℕ) (rows : List OutboxEvent)
    → flags (update_where (is_event id) (λ e. record e { attempts = suc e.attempts }) rows)
      ≡ flags rows
flags-attempt id [] = refl
flags-attempt id (e ∷ rows) = elim (Bool-cases (e.id == id)) [
  | inl here ↦ rw (here, flags-attempt id rows) refl
  | inr other ↦ rw (other, flags-attempt id rows) refl
]

-- Nothing was sent.
none_sent :
    (es : List OutboxEvent) (s t : PaymentStore)
    → t.acknowledged ≡ s.acknowledged
    → flags t.outbox ≡ flags s.outbox
    → Prefix es s t
none_sent es s t acks rows = record {
  sent = 0;
  done = 0;
  behind = inl refl;
  acknowledged = acks ∙ sym (append-nil s.acknowledged);
  outbox = rows;
}

module _ (e : OutboxEvent) (es : List OutboxEvent) (s : PaymentStore) where
  abbrev acknowledged_one : PaymentStore
  acknowledged_one = record s { acknowledged = s.acknowledged ++ message e ∷ [] }

  abbrev After : Result (Unit {0}) → PaymentStore → Type 0
  After (ok _) t = t ≡ mark_published e.id acknowledged_one
  After (err _) t = Prefix (e ∷ es) s t

  abbrev Produced : Result (Unit {0}) → PaymentStore → Type 0
  Produced (ok _) t = t ≡ acknowledged_one
  Produced (err _) t = t ≡ s

  produced-After :
      (r : Result (Unit {0})) (t : PaymentStore) → Produced r t → Leads (produced e r) t After
  unfolding produced mark_attempt
  produced-After (ok _) t p = rw p (
      leads_statement _
        (record { sent = 1; done = 0; behind = inr refl; acknowledged = refl; outbox = refl }) refl)
  produced-After (err x) t p = rw p (
      leads_attempt {f = λ _. throw x} (
        leads_statement _ (leads_throw (none_sent (e ∷ es) s s refl refl))
          (leads_throw (none_sent (e ∷ es) s _ refl (flags-attempt e.id s.outbox)))))

  event-After : Leads (publish_event e) s After
  unfolding publish_event produce
  event-After =
      leads_attempt {f = produced e}
        (leads_weaken {P = Produced} (leads_statement _ refl refl) produced-After)

  -- One more event in front.
  later-Sent :
      (r : Result (Unit {0})) (t : PaymentStore)
      → Sent es (mark_published e.id acknowledged_one) r t
      → Sent (e ∷ es) s r t
  unfolding mark_published
  later-Sent (ok _) t p = (p.0 ∙ append_assoc s.acknowledged (message e ∷ []) (map message es), p.1)
  later-Sent (err _) t p = record {
    sent = suc p.sent;
    done = suc p.done;
    behind = elim p.behind [ inl h ↦ inl (ap suc h) | inr h ↦ inr (ap suc h) ];
    acknowledged =
        p.acknowledged
        ∙ append_assoc s.acknowledged (message e ∷ []) (map message (take p.sent es));
    outbox = p.outbox;
  }

events-Sent : (es : List OutboxEvent) (s : PaymentStore) → Leads (publish_events es) s (Sent es s)
unfolding publish_events
events-Sent [] s = leads_pure (sym (append-nil s.acknowledged), refl)
events-Sent (e ∷ es) s =
    leads_bind (event-After e es s)
      (λ _ t same. rw same (
        leads_weaken (events-Sent es (mark_published e.id (acknowledged_one e es s)))
          (later-Sent e es s)))
      (λ _ _ p. p)

ok-injective : (xs ys : List OutboxEvent) → ok xs ≡ ok ys → xs ≡ ys
ok-injective xs ys e = cc

-- The first 100 events that are not published, by their ids.
abbrev pub first_events : PaymentStore → List OutboxEvent
first_events s = take 100 (order_by (λ (e : OutboxEvent). e.id) (select is_unpublished s.outbox))

-- Whatever calls fail, `publishBatch` gives the broker a prefix of the first 100 events that are
-- not published, in the order of their ids: all of them, each marked as published, where it
-- succeeds; where it fails, as many are marked as were acknowledged, or one less.
pub publish_batch-Sent : (s : PaymentStore) → Leads publish_batch s (Sent (first_events s) s)
unfolding publish_batch pending_events
publish_batch-Sent s =
    leads_query _ publish_events (λ es e. rw (← ok-injective _ es e) (events-Sent _ s))
      (λ _. none_sent _ s s refl refl)
