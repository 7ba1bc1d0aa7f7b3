-- ===== src/Order/Tests.antt =====
-- The order service on concrete inputs: a codec that keeps the fields it needs, one stored order.
use pingu_coin.Base.{
  ℕ, none, ◌==◌, if◌then◌else◌, String, [], ◌∷◌, true, false, some, ◌≡◌, refl, arith, ◌+◌, ◌^◌,
}
use pingu_coin.Base.Int.{pos, mul64}
use pingu_coin.Base.Text.{trim_space}
use pingu_coin.Base.Store.{ok, err, ◌>>=◌, ◌>>◌, calm, statement, unavailable, transaction}
use pingu_coin.Base.Store.Laws.{Leads}
use pingu_coin.Base.Rpc.{reply}
use pingu_coin.Flow.{Codec, OrderCreated, InventoryResult, PaymentResult, topic_order_created}
use pingu_coin.Order.Model.{Order, OutboxEvent, OrderStore, pending, paid}
use pingu_coin.Order.Repository.{create_or_get, insert_event, insert_order}
use pingu_coin.Order.Server.{CreateOrderRequest, candidate}
use pingu_coin.Order.Consumer.{handle}
use pingu_coin.Order.Outbox.{flush}
use pingu_coin.Order.Outbox.Delivered.{Flushes, flush-Flushes}
use pingu_coin.Retry.{Attempt}
use pingu_coin.Order.Lifecycle.{row, handle-settled, handle-⟶, ◌⟶◌}
use pingu_coin.Order.Delivery.{reserved, settled, handle-handle, reserved-settled_commute}
use pingu_coin.Order.Creation.{
  added, Ends, create_or_get-placed, create_or_get-Ends, create_or_get-again,
}
use pingu_coin.Order.Checks.{candidate_wraps}
use pingu_coin.Order.Invariant.{IsSound, IsSound-kept}

abbrev goods : OrderCreated
goods = record {
  order_id = 1;
  user_id = 7;
  product_id = 3;
  quantity = pos 2;
  unit_price = pos 500;
  total_amount = pos 1000;
  payment_method = "point";
  currency = "POINT";
  idempotency_key = "k1";
}

abbrev held : InventoryResult
held = record { order = goods; reason = "" }

abbrev charged : PaymentResult
charged = record { order = goods; payment_id = 9; reason = ""; action_url = "" }

-- A codec for one message of each type.
abbrev codec : Codec
codec = record {
  encode_order = λ _. "order";
  decode_order = λ _. some goods;
  encode_inventory = λ _. "held";
  decode_inventory = λ _. some held;
  encode_payment = λ _. "charged";
  decode_payment = λ _. some charged;
}

abbrev upper : String → String
upper s = s

abbrev request : CreateOrderRequest
request = record {
  user_id = 7;
  product_id = 3;
  quantity = pos 2;
  unit_price = pos 500;
  payment_method = " point ";
  currency = "POINT";
  idempotency_key = "k1";
}

abbrev wanted : Order
wanted = record {
  id = 0;
  user_id = 7;
  product_id = 3;
  quantity = pos 2;
  unit_price = pos 500;
  total_amount = pos 1000;
  payment_id = 0;
  payment_method = "point";
  currency = "POINT";
  action_url = "";
  status = pending;
  idempotency_key = "k1";
  failure_reason = "";
}

abbrev nothing_stored : OrderStore
nothing_stored = record {
  orders = [];
  next_order = 1;
  outbox = [];
  next_event = 1;
  acknowledged = [];
}

abbrev first : OrderStore
first = added codec topic_order_created wanted nothing_stored

request-passes : candidate upper request ≡ reply wanted
unfolding candidate trim_space mul64
request-passes = refl

-- The same order, paid.
abbrev bought : Order
bought = record wanted { id = 1; status = paid; payment_id = 9 }

abbrev after_payment : OrderStore
after_payment = record nothing_stored { orders = bought ∷ []; next_order = 2 }

handle-settled_example :
    Leads (handle codec (settled codec false charged)) after_payment (λ _ t. row 1 t ≡ some bought)
handle-settled_example =
    handle-settled codec (settled codec false charged) after_payment 1 bought refl refl

handle-⟶_example :
    Leads
      (handle codec (reserved codec held))
      first
      (λ _ t. (o : Order) × (row 1 t ≡ some o) × (pending ⟶ o.status))
unfolding insert_event
handle-⟶_example = handle-⟶ codec (reserved codec held) first 1 (record wanted { id = 1 }) refl

handle-handle_example :
    (handle codec (reserved codec held) >> handle codec (reserved codec held)) (calm first)
    ≡ handle codec (reserved codec held) (calm first)
handle-handle_example = handle-handle codec (reserved codec held) first

reserved-settled_commute_example :
    (handle codec (reserved codec held) >> handle codec (settled codec true charged)) (calm first)
    ≡ (handle codec (settled codec true charged) >> handle codec (reserved codec held)) (calm first)
unfolding insert_event
reserved-settled_commute_example =
    reserved-settled_commute codec held true charged first refl refl ((λ e. cc), tt)

create_or_get-placed_example :
    create_or_get codec wanted topic_order_created (calm nothing_stored)
    ≡ (ok (record wanted { id = 1 }, false), calm first)
create_or_get-placed_example = create_or_get-placed codec topic_order_created wanted nothing_stored

create_or_get-Ends_example :
    Leads
      (create_or_get codec wanted topic_order_created)
      first
      (Ends codec topic_order_created wanted first)
create_or_get-Ends_example = create_or_get-Ends codec topic_order_created wanted first

create_or_get-again_example :
    (create_or_get codec wanted topic_order_created >>= λ _.
    create_or_get codec wanted topic_order_created)
      (calm nothing_stored)
    ≡ (ok (record wanted { id = 1 }, true), calm first)
create_or_get-again_example =
    create_or_get-again codec topic_order_created wanted nothing_stored refl

-- A price of 2^62 + 5.
abbrev costly : CreateOrderRequest
costly = record request { unit_price = pos (2 ^ 62 + 5); quantity = pos 4 }

abbrev bargain : Order
bargain = record wanted { unit_price = pos (2 ^ 62 + 5); quantity = pos 4; total_amount = pos 20 }

costly-passes : candidate upper costly ≡ reply bargain
unfolding candidate trim_space mul64
costly-passes = refl

candidate_wraps_example : bargain.total_amount ≡ pos 20
candidate_wraps_example =
    candidate_wraps upper costly bargain 5 costly-passes (omega arith) refl refl

first-IsSound : IsSound first
unfolding insert_event
first-IsSound = record {
  distinct_keys = (refl, tt);
  fresh_ids = (omega arith, tt);
  announced = (refl, tt);
}

IsSound-kept_example :
    Leads (create_or_get codec wanted topic_order_created) first (λ _ t. IsSound t)
    × Leads (handle codec (settled codec true charged)) first (λ _ t. IsSound t)
IsSound-kept_example =
    IsSound-kept codec topic_order_created wanted (settled codec true charged) first first-IsSound

-- A failed statement in the middle leaves the tables as they were.
interrupted :
    create_or_get codec wanted topic_order_created
      (record { store = nothing_stored; faults = false ∷ false ∷ true ∷ [] })
    ≡ (err unavailable, calm nothing_stored)
unfolding create_or_get insert_order statement transaction ◌>>=◌
interrupted = refl

-- The broker takes a message at the second attempt.
abbrev tries : OutboxEvent → ℕ → Attempt String
tries e n = record {
  failure = if n == 1 then some "timeout" else none;
  ended = false;
  ended_waiting = false;
  waited_until = 0;
}

abbrev queued : OrderStore
queued = insert_event 1 topic_order_created "k1" "order" nothing_stored

flush-Flushes_example :
    Leads (flush tries "context canceled") queued (Flushes tries "context canceled" queued)
flush-Flushes_example = flush-Flushes tries "context canceled" queued
