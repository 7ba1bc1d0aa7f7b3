-- ===== src/Payment/Publisher.antt =====
-- services/payment-api/internal/outbox/publisher.go: the events that are waiting go to the broker.
pub mod Progress
use pingu_coin.Base.{List, [], ◌∷◌, ◌++◌}
use pingu_coin.Base.Store.{Result, ok, err, M, pure, throw, ◌>>=◌, ◌>>◌, modify, attempt}
use pingu_coin.Flow.{KafkaRecord}
use pingu_coin.Payment.Model.{OutboxEvent, PaymentStore}
use pingu_coin.Payment.Rows.{pending_events, mark_published, mark_attempt}

-- `ProduceSync`: the broker acknowledges the message, or the call fails.
unfoldable pub produce : KafkaRecord → M PaymentStore (Unit {0})
produce r = modify (λ s. record s { acknowledged = s.acknowledged ++ r ∷ [] })

abbrev pub message : OutboxEvent → KafkaRecord
message e = record { topic = e.topic; key = e.key; value = e.payload }

unfoldable pub produced : OutboxEvent → Result (Unit {0}) → M PaymentStore (Unit {0})
unfolding mark_published mark_attempt ◌>>=◌
produced e (ok _) = modify (mark_published e.id)
produced e (err x) = do attempt (modify (mark_attempt e.id)); throw x

unfoldable pub publish_event : OutboxEvent → M PaymentStore (Unit {0})
unfolding produce produced ◌>>=◌
publish_event e = do r ← attempt (produce (message e)); produced e r

unfoldable pub publish_events : List OutboxEvent → M PaymentStore (Unit {0})
unfolding publish_event ◌>>=◌
publish_events [] = pure tt
publish_events (e ∷ es) = do publish_event e; publish_events es

-- `publishBatch`
unfoldable pub publish_batch : M PaymentStore (Unit {0})
unfolding pending_events publish_events ◌>>=◌
publish_batch = do events ← pending_events 100; publish_events events
