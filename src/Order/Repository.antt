-- ===== src/Order/Repository.antt =====
-- services/order-api/internal/repository/order.go: the statements and transactions on orders.
use pingu_coin.Base.{
  ℕ, suc, String, List, [], ◌∷◌, ◌++◌, Bool, true, false, ◌&&◌, ◌==◌, if◌then◌else◌, select,
  find_first, exists, update_where, reverse, leb, length,
}
use pingu_coin.Base.Int.{eqb_ℤ}
use pingu_coin.Base.Text.{◌is◌, bytes}
use pingu_coin.Base.Store.{
  Result, ok, err, Error, unavailable, duplicated_key, idempotency_conflict, M, pure, throw, ◌>>=◌,
  ◌>>◌, statement, query, modify, found, transaction, attempt,
}
use pingu_coin.Flow.{Codec, OrderCreated}
use pingu_coin.Order.Model.{
  OrderStatus, pending, inventory_pending, payment_pending, payment_action_required, paid, failed,
  processing, Order, OutboxEvent, OrderStore,
}

abbrev pub has_key : String → Order → Bool
has_key key o = o.idempotency_key is key

-- `tx.Create(candidate)`: the unique index on `idempotency_key`, and the id from the sequence.
unfoldable pub insert_order : Order → OrderStore → Result Order × OrderStore
insert_order candidate s =
    let row = record candidate { id = s.next_order } in
    if exists (has_key candidate.idempotency_key) s.orders
    then (err duplicated_key, s)
    else (ok row, record s { orders = s.orders ++ row ∷ []; next_order = suc s.next_order })

unfoldable pub insert_event : ℕ → String → String → String → OrderStore → OrderStore
insert_event aggregate topic key payload s =
    let event : OutboxEvent = record {
      id = s.next_event;
      aggregate_id = aggregate;
      topic = topic;
      event_key = key;
      payload = payload;
      published = false;
      attempts = 0;
      last_error = "";
    } in
    record s { outbox = s.outbox ++ event ∷ []; next_event = suc s.next_event }

-- The message that announces an order.
abbrev pub announce : Order → OrderCreated
announce o = record {
  order_id = o.id;
  user_id = o.user_id;
  product_id = o.product_id;
  quantity = o.quantity;
  unit_price = o.unit_price;
  total_amount = o.total_amount;
  payment_method = o.payment_method;
  currency = o.currency;
  idempotency_key = o.idempotency_key;
}

-- Whether a repeated request asks for the order that its key already has.
unfoldable pub same_request : Order → Order → Bool
same_request existing candidate =
    existing.user_id == candidate.user_id
    && existing.product_id == candidate.product_id
    && eqb_ℤ existing.quantity candidate.quantity
    && (existing.payment_method is candidate.payment_method)
    && (existing.currency is candidate.currency)

module _ (codec : Codec) where
  open codec use {encode_order}

  unfoldable pub create : Order → String → M OrderStore Order
  unfolding insert_order insert_event ◌>>=◌
  create candidate topic = transaction (do
    row ← statement (insert_order candidate)
    modify (insert_event row.id topic row.idempotency_key (encode_order (announce row)))
    pure row)

-- What `CreateOrGet` does once its transaction has ended.
unfoldable pub get_existing : Order → Result Order → M OrderStore (Order × Bool)
unfolding same_request ◌>>=◌
get_existing candidate (ok row) = pure (row, false)
get_existing candidate (err Error.duplicated_key) = do
  existing ← query (λ s. found (find_first (has_key candidate.idempotency_key) s.orders))
  if same_request existing candidate then pure (existing, true) else throw idempotency_conflict
get_existing candidate (err e) = throw e

module _ (codec : Codec) where
  unfoldable pub create_or_get : Order → String → M OrderStore (Order × Bool)
  unfolding create get_existing ◌>>=◌
  create_or_get candidate topic = do
    r ← attempt (create codec candidate topic)
    get_existing candidate r

-- The `WHERE` of each update, and what it sets.
abbrev pub awaits_inventory : OrderStatus → Bool
awaits_inventory pending = true
awaits_inventory inventory_pending = true
awaits_inventory _ = false

abbrev pub awaits_payment : OrderStatus → Bool
awaits_payment payment_pending = true
awaits_payment payment_action_required = true
awaits_payment pending = true
awaits_payment _ = false

unfoldable pub inventory_row : Bool → String → Order → Order
inventory_row reserved reason o =
    if awaits_inventory o.status
    then record o { status = if reserved then payment_pending else failed; failure_reason = reason }
    else o

unfoldable pub payment_row : ℕ → Bool → String → Order → Order
payment_row payment succeeded reason o =
    if awaits_payment o.status
    then record o {
      status = if succeeded then paid else failed;
      payment_id = payment;
      failure_reason = reason;
      action_url = "";
    }
    else o

unfoldable pub action_row : ℕ → String → Order → Order
action_row payment url o =
    if awaits_payment o.status
    then record o { status = payment_action_required; payment_id = payment; action_url = url }
    else o

-- An update changes the row with the id, and no other.
abbrev pub update_order : ℕ → (Order → Order) → OrderStore → OrderStore
update_order id f s = record s { orders = update_where (λ o. o.id == id) f s.orders }

unfoldable pub apply_inventory_result : ℕ → Bool → String → M OrderStore (Unit {0})
unfolding inventory_row
apply_inventory_result id reserved reason = modify (update_order id (inventory_row reserved reason))

unfoldable pub apply_payment_result : ℕ → ℕ → Bool → String → M OrderStore (Unit {0})
unfolding payment_row
apply_payment_result id payment succeeded reason =
    modify (update_order id (payment_row payment succeeded reason))

-- The text of a status in the column, which is a `varchar(20)`.
abbrev pub column_text : OrderStatus → String
column_text pending = "pending"
column_text inventory_pending = "inventory_pending"
column_text payment_pending = "payment_pending"
column_text payment_action_required = "payment_action_required"
column_text paid = "paid"
column_text failed = "failed"
column_text processing = "processing"

unfoldable pub fits_column : OrderStatus → Bool
unfolding bytes
fits_column status = leb (length (bytes (column_text status))) 20

-- Postgres refuses a text that is too long, with an error that no code tells from another.
unfoldable pub write_action : ℕ → ℕ → String → OrderStore → Result (Unit {0}) × OrderStore
unfolding action_row fits_column
write_action id payment url s =
    if fits_column payment_action_required
    then (ok tt, update_order id (action_row payment url) s)
    else (err unavailable, s)

unfoldable pub apply_payment_action_required : ℕ → ℕ → String → M OrderStore (Unit {0})
unfolding write_action
apply_payment_action_required id payment url = statement (write_action id payment url)

unfoldable pub find : ℕ → ℕ → M OrderStore Order
find id user = query (λ s. found (find_first (λ o. o.id == id && o.user_id == user) s.orders))

-- Rows stand in the order of their ids, so `id desc` reverses them.
unfoldable pub list : ℕ → M OrderStore (List Order)
list user = query (λ s. ok (reverse (select (λ o. o.user_id == user) s.orders)))

abbrev is_paid : OrderStatus → Bool
is_paid paid = true
is_paid _ = false

unfoldable pub has_paid : ℕ → ℕ → M OrderStore Bool
has_paid user product = query (λ s.
    ok (exists (λ o. o.user_id == user && o.product_id == product && is_paid o.status) s.orders))

abbrev is_processing : OrderStatus → Bool
is_processing processing = true
is_processing _ = false

abbrev completed : Order → OrderStatus → ℕ → String → Order → Order
completed order status payment reason row = record row {
  status = status;
  payment_id = payment;
  failure_reason = reason;
  unit_price = order.unit_price;
  total_amount = order.total_amount;
}

-- The two writes of `Complete`.
unfoldable pub write_completion :
    Order → OrderStatus → ℕ → String → String → String → Order → M OrderStore (Unit {0})
unfolding insert_event ◌>>=◌
write_completion order status payment reason payload topic row = do
  modify (update_order order.id (completed order status payment reason))
  modify (insert_event row.id topic row.idempotency_key payload)

-- `Complete`: the row is read again under its lock, and only an order in `processing` is changed.
unfoldable pub complete :
    Order → OrderStatus → ℕ → String → String → String → M OrderStore (Unit {0})
unfolding write_completion ◌>>=◌
complete order status payment reason payload topic = transaction (do
  row ← query (λ s. found (find_first (λ o. o.id == order.id) s.orders))
  let write = write_completion order status payment reason payload topic row
  if is_processing row.status then write else pure tt)
