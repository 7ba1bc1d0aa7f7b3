-- ===== src/Order/Outbox/Delivered.antt =====
-- The publisher sends what the broker takes, in order, and leaves the rest waiting.
use mathlib.Core.List.{append_assoc, append-nil}
use pingu_coin.Base.{
  ℕ, suc, String, List, [], ◌∷◌, ◌++◌, Bool, true, false, ◌&&◌, Option, none, some, ◌≡◌, ◌∙◌, refl,
  sym, ap, ◌==◌, map, select, update_where, All, Bool-cases, inl, inr, ◌⊎◌, arith,
}
use pingu_coin.Base.Store.{Result, ok, err, modify, attempt}
use pingu_coin.Base.Store.Laws.{
  Leads, leads_bind, leads_pure, leads_statement, leads_weaken, leads_attempt,
}
use pingu_coin.Order.Model.{OutboxEvent, OrderStore}
use pingu_coin.Order.Outbox.{
  waiting_events, message_of, has_event_id, mark_delivered, mark_failed, acknowledge,
  publish_failure, flush_answered, flush_events, flush_found, flush,
}
use pingu_coin.Retry.{Attempt}

-- Whether the rows with an id are published.
abbrev pub flags_of : ℕ → List OutboxEvent → List Bool
flags_of n rows = map (λ (e : OutboxEvent). e.published) (select (has_event_id n) rows)

flags-update :
    (n m : ℕ) (f : OutboxEvent → OutboxEvent)
    → ((e : OutboxEvent) → (f e).id ≡ e.id)
    → ((e : OutboxEvent) → (e.id == m) ≡ true → (e.id == n) ≡ true → (f e).published ≡ e.published)
    → (rows : List OutboxEvent)
    → flags_of n (update_where (has_event_id m) f rows) ≡ flags_of n rows
flags-update n m f ids same [] = refl
flags-update n m f ids same (e ∷ rows) = elim (Bool-cases (e.id == m)) [
  | inl here ↦ elim (Bool-cases (e.id == n)) [
    | inl asked ↦ rw (here, ids e, asked, same e here asked, flags-update n m f ids same rows) refl
    | inr other ↦ rw (here, ids e, other) (flags-update n m f ids same rows)
  ]
  | inr there ↦ elim (Bool-cases (e.id == n)) [
    | inl asked ↦ rw (there, asked, flags-update n m f ids same rows) refl
    | inr other ↦ rw (there, other) (flags-update n m f ids same rows)
  ]
]

abbrev pub is_none : Option String → Bool
is_none none = true
is_none (some _) = false

module _ (tries : OutboxEvent → ℕ → Attempt String) (ended : String) where
  abbrev pub is_delivered : OutboxEvent → Bool
  is_delivered e = is_none (publish_failure tries ended e)

  -- No event with the id `n` is delivered.
  abbrev pub Undelivered : ℕ → List OutboxEvent → Type 0
  Undelivered n es = All (λ e. ((e.id == n) && is_delivered e) ≡ false) es

  -- What the events `es` leave: the messages that were delivered, in order.
  pub record Flushed (es : List OutboxEvent) (s t : OrderStore) : Type 0 where
    pub orders : t.orders ≡ s.orders
    pub acknowledged : t.acknowledged ≡ s.acknowledged ++ map message_of (select is_delivered es)
    pub waiting : (n : ℕ) → Undelivered n es → flags_of n t.outbox ≡ flags_of n s.outbox

  abbrev Ends : List OutboxEvent → OrderStore → Result (Unit {0}) → OrderStore → Type 0
  Ends es s (ok _) t = Flushed es s t
  Ends es s (err _) t = ⊥

  abbrev Steps : OutboxEvent → OrderStore → Result (Result (Unit {0})) → OrderStore → Type 0
  Steps e s (ok _) t = Flushed (e ∷ []) s t
  Steps e s (err _) t = ⊥

  module _ (e : OutboxEvent) (s : OrderStore) where
    abbrev with_message : OrderStore
    with_message = record s { acknowledged = s.acknowledged ++ message_of e ∷ [] }

    failed-Flushed :
        (text : String)
        → publish_failure tries ended e ≡ some text
        → (t : OrderStore) → t.orders ≡ s.orders
        → t.acknowledged ≡ s.acknowledged
        → ((n : ℕ) → flags_of n t.outbox ≡ flags_of n s.outbox)
        → Flushed (e ∷ []) s t
    failed-Flushed text f t same acks flags = record {
      orders = same;
      acknowledged = rw f (acks ∙ sym (append-nil s.acknowledged));
      waiting = λ n _. flags n;
    }

    delivered-Flushed :
        publish_failure tries ended e ≡ none
        → (t : OrderStore) → t.orders ≡ s.orders
        → t.acknowledged ≡ s.acknowledged ++ message_of e ∷ []
        → ((n : ℕ) → (e.id == n) ≡ false → flags_of n t.outbox ≡ flags_of n s.outbox)
        → Flushed (e ∷ []) s t
    delivered-Flushed f t same acks flags = record {
      orders = same;
      acknowledged = rw f acks;
      waiting = λ n u. flags n (other n (e.id == n) (rw f at u.0));
    }
      where
        other : (n : ℕ) (b : Bool) → (b && true) ≡ false → b ≡ false
        other n b h = ground (arith, h)

    abbrev Noted : Result (Unit {0}) → OrderStore → Type 0
    Noted (ok _) t = t ≡ with_message
    Noted (err _) t = ⊥

    answered-Steps :
        (failure : Option String)
        → publish_failure tries ended e ≡ failure
        → Leads (flush_answered tries ended e failure) s (Steps e s)
    unfolding flush_answered mark_failed mark_delivered acknowledge
    answered-Steps (some text) f = record {
      outcome =
          (leads_statement {Q = λ r t. Steps e s (ok r) t} _
            (failed-Flushed text f s refl refl (λ _. refl))
            (failed-Flushed text f (mark_failed e.id text s) refl refl (λ n.
              flags-update n e.id (λ x. record x { attempts = suc x.attempts; last_error = text })
                (λ _. refl) (λ _ _ _. refl) s.outbox))).outcome;
    }
    answered-Steps none f =
        leads_bind {P = Noted} {m = acknowledge (message_of e)}
          {f = λ _. attempt (modify (mark_delivered e.id))} (record { outcome = λ faults. refl })
          (λ _ t same. rw same (record {
            outcome =
                (leads_statement {Q = λ r u. Steps e s (ok r) u} _
                  (delivered-Flushed f with_message refl refl (λ _ _. refl))
                  (delivered-Flushed f (mark_delivered e.id with_message) refl refl (λ n other.
                    flags-update n e.id (λ x. record x { published = true; last_error = "" })
                      (λ _. refl) (λ x here asked. absurd (clash n x.id here asked other))
                      s.outbox))).outcome;
          }))
          (λ _ _ never. absurd never)
      where
        clash : (n m : ℕ) → (m == e.id) ≡ true → (m == n) ≡ true → (e.id == n) ≡ false → ⊥
        clash n m here asked other = ground (arith, here, asked, other)

    -- One event, and those behind it.
    join-Flushed :
        (es : List OutboxEvent) (t u : OrderStore)
        → Flushed (e ∷ []) s t
        → Flushed es t u
        → Flushed (e ∷ es) s u
    join-Flushed es t u a b = record {
      orders = b.orders ∙ a.orders;
      acknowledged = elim (Bool-cases (is_delivered e)) [
        | inl sent ↦ rw sent (
            b.acknowledged
            ∙ ap (λ l. l ++ map message_of (select is_delivered es)) (rw sent at a.acknowledged)
            ∙ append_assoc s.acknowledged (message_of e ∷ [])
                (map message_of (select is_delivered es)))
        | inr kept ↦ rw kept (
            b.acknowledged
            ∙ ap (λ l. l ++ map message_of (select is_delivered es))
                ((rw kept at a.acknowledged) ∙ append-nil s.acknowledged))
      ];
      waiting = λ n h. b.waiting n h.1 ∙ a.waiting n (h.0, tt);
    }

  join-Ends :
      (e : OutboxEvent) (es : List OutboxEvent) (s t : OrderStore) (q : Result (Result (Unit {0})))
      → Steps e s q t
      → (r : Result (Unit {0})) (u : OrderStore) → Ends es t r u
      → Ends (e ∷ es) s r u
  join-Ends e es s t (ok _) a (ok _) u b = join-Flushed e s es t u a b
  join-Ends e es s t (ok _) a (err _) u b = b
  join-Ends e es s t (err _) a r u b = absurd a

  events-Ends :
      (es : List OutboxEvent) (s : OrderStore) → Leads (flush_events tries ended es) s (Ends es s)
  unfolding flush_events
  events-Ends [] s = leads_pure (record {
    orders = refl;
    acknowledged = sym (append-nil s.acknowledged);
    waiting = λ _ _. refl;
  })
  events-Ends (e ∷ es) s =
      leads_bind (answered-Steps e s (publish_failure tries ended e) refl)
        (λ q t a. leads_weaken {P = Ends es t} (events-Ends es t) (join-Ends e es s t (ok q) a))
        (λ _ _ never. absurd never)

  -- What the query has found is sent, or nothing is.
  abbrev pub Flushes : OrderStore → Result (Unit {0}) → OrderStore → Type 0
  Flushes s (ok _) t = Flushed (waiting_events s) s t ⊎ (t ≡ s)
  Flushes s (err _) t = ⊥

  found-Flushes :
      (s : OrderStore) (r : Result (Unit {0})) (t : OrderStore)
      → Ends (waiting_events s) s r t
      → Flushes s r t
  found-Flushes s (ok _) t h = inl h
  found-Flushes s (err _) t h = h

  -- Whatever statements fail, `flush` returns, and either nothing has changed, or of the first 100
  -- events that wait, in the order of their ids, those that `Do` delivers are appended to the
  -- messages of the broker, the orders are as they were, and rows with an id under which no event
  -- was delivered are published if and only if they were.
  pub flush-Flushes : (s : OrderStore) → Leads (flush tries ended) s (Flushes s)
  unfolding flush
  flush-Flushes s = leads_attempt {f = flush_found tries ended} (
      leads_statement _ (leads_pure (inr refl))
        (leads_weaken (events-Ends (waiting_events s) s) (found-Flushes s)))
