-- ===== src/Order/Outbox.antt =====
-- services/order-api/internal/outbox/publisher.go: the events that are waiting go to the broker.
pub mod Delivered
use pingu_coin.Base.{
  ℕ, suc, String, List, [], ◌∷◌, ◌++◌, Bool, true, false, not, Option, none, some, ◌==◌, select,
  take, order_by, update_where,
}
use pingu_coin.Base.Text.{◌<>◌}
use pingu_coin.Base.Store.{Result, ok, err, M, pure, ◌>>=◌, ◌>>◌, query, modify, attempt}
use pingu_coin.Flow.{KafkaRecord}
use pingu_coin.Order.Model.{OutboxEvent, OrderStore}
use pingu_coin.Retry.{Attempt, Outcome, done, canceled, exhausted, Run, do_retry}

abbrev pub is_waiting : OutboxEvent → Bool
is_waiting e = not e.published

-- The first 100 events that wait, `Order("id")`.
abbrev pub waiting_events : OrderStore → List OutboxEvent
waiting_events s = take 100 (order_by (λ (e : OutboxEvent). e.id) (select is_waiting s.outbox))

abbrev pub message_of : OutboxEvent → KafkaRecord
message_of e = record { topic = e.topic; key = e.event_key; value = e.payload }

abbrev pub has_event_id : ℕ → OutboxEvent → Bool
has_event_id id e = e.id == id

unfoldable pub mark_delivered : ℕ → OrderStore → OrderStore
mark_delivered id s = record s {
  outbox =
      update_where (has_event_id id) (λ e. record e { published = true; last_error = "" }) s.outbox;
}

unfoldable pub mark_failed : ℕ → String → OrderStore → OrderStore
mark_failed id text s = record s {
  outbox =
      update_where (has_event_id id)
        (λ e. record e { attempts = suc e.attempts; last_error = text }) s.outbox;
}

-- The broker has the message.
unfoldable pub acknowledge : KafkaRecord → M OrderStore (Unit {0})
acknowledge r w =
    (ok tt, record w { store = record w.store { acknowledged = w.store.acknowledged ++ r ∷ [] } })

-- `tries` tells how the calls of the broker end, attempt by attempt, and `ended` is the text of the
-- context's error.
module _ (tries : OutboxEvent → ℕ → Attempt String) (ended : String) where
  abbrev pub failure_of : Outcome String → Option String
  failure_of done = none
  failure_of canceled = some ended
  failure_of (exhausted text) = some ("order.outbox.publish failed after 6 attempts: " <> text)

  -- The error of `Do`, if any.
  unfoldable pub publish_failure : OutboxEvent → Option String
  unfolding do_retry
  publish_failure e = failure_of (do_retry (tries e)).outcome

  -- What the updates end in is not looked at.
  unfoldable pub flush_answered : OutboxEvent → Option String → M OrderStore (Result (Unit {0}))
  unfolding acknowledge mark_delivered mark_failed ◌>>=◌
  flush_answered e (some text) = attempt (modify (mark_failed e.id text))
  flush_answered e none = do acknowledge (message_of e); attempt (modify (mark_delivered e.id))

  unfoldable pub flush_events : List OutboxEvent → M OrderStore (Unit {0})
  unfolding publish_failure flush_answered ◌>>=◌
  flush_events [] = pure tt
  flush_events (e ∷ es) = do flush_answered e (publish_failure e); flush_events es

  abbrev pub flush_found : Result (List OutboxEvent) → M OrderStore (Unit {0})
  flush_found (ok events) = flush_events events
  flush_found (err _) = pure tt

  -- `flush`
  unfoldable pub flush : M OrderStore (Unit {0})
  unfolding flush_events ◌>>=◌
  flush = do r ← attempt (query (λ s. ok (waiting_events s))); flush_found r
