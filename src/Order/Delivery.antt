-- ===== src/Order/Delivery.antt =====
-- Messages are delivered at least once and in any order between topics: what that does to orders.
use mathlib.Core.Path.{ap₂}
use pingu_coin.Base.{
  ℕ, String, List, [], ◌∷◌, Bool, true, false, some, ◌≡◌, ◌≢◌, refl, ◌==◌, if◌then◌else◌, arith,
  update_where, ap, All,
}
use pingu_coin.Base.Store.{M, ◌>>=◌, ◌>>◌, statement, modify, calm}
use pingu_coin.Flow.{
  KafkaRecord, Codec, InventoryResult, PaymentResult, topic_inventory_reserved,
  topic_payment_succeeded, topic_payment_failed,
}
use pingu_coin.Order.Model.{inventory_pending, Order, OrderStore}
use pingu_coin.Order.Repository.{
  inventory_row, payment_row, update_order, apply_inventory_result, apply_payment_result,
}
use pingu_coin.Order.Consumer.{handle, handle_inventory, handle_payment}
use pingu_coin.Order.Lifecycle.{
  RowChange, RowChange-id, RowChange-again, Effect, nothing, refuses, fails, changes, handle-Effect,
}

update_order-again :
    (id : ℕ) (f : Order → Order) (s : OrderStore)
    → RowChange f
    → update_order id f (update_order id f s) ≡ update_order id f s
update_order-again id f s c = ap (λ os. record s { orders = os }) (go s.orders)
  where
    go :
        (os : List Order)
        → update_where (λ o. o.id == id) f (update_where (λ o. o.id == id) f os)
          ≡ update_where (λ o. o.id == id) f os
    go [] = refl
    go (o ∷ os) = ground (arith, go os, RowChange-id c o, RowChange-again c o)

again : (m : M OrderStore (Unit {0})) (s : OrderStore) → Effect m → (m >> m) (calm s) ≡ m (calm s)
unfolding ◌>>=◌ statement
again m s (nothing e) = rw e refl
again m s (refuses e) = rw e refl
again m s (fails e) = rw e refl
again m s (changes id f c e) = rw e (rw (update_order-again id f s c) refl)

-- A message that is delivered twice does what it does when it is delivered once.
pub handle-handle :
    (codec : Codec) (r : KafkaRecord) (s : OrderStore)
    → (handle codec r >> handle codec r) (calm s) ≡ handle codec r (calm s)
handle-handle codec r s = again (handle codec r) s (handle-Effect codec r)

abbrev pub NotParked : Order → Type 0
NotParked o = o.status ≢ inventory_pending

row_commute :
    (i j p : ℕ) (b : Bool) (r q : String) (o : Order)
    → NotParked o
    → let reserve = λ (x : Order). if x.id == i then inventory_row true r x else x in
      let settle = λ (x : Order). if x.id == j then payment_row p b q x else x in
      settle (reserve o) ≡ reserve (settle o)
unfolding inventory_row payment_row
row_commute i j p b r q o h = ground arith

update_commute :
    (i j p : ℕ) (b : Bool) (r q : String) (s : OrderStore)
    → All NotParked s.orders
    → update_order j (payment_row p b q) (update_order i (inventory_row true r) s)
      ≡ update_order i (inventory_row true r) (update_order j (payment_row p b q) s)
update_commute i j p b r q s h = ap (λ os. record s { orders = os }) (go s.orders h)
  where
    go :
        (os : List Order)
        → All NotParked os
        → update_where
            (λ o. o.id == j)
            (payment_row p b q)
            (update_where (λ o. o.id == i) (inventory_row true r) os)
          ≡ update_where
              (λ o. o.id == i)
              (inventory_row true r)
              (update_where (λ o. o.id == j) (payment_row p b q) os)
    go [] k = refl
    go (o ∷ os) k = ap₂ ◌∷◌ (row_commute i j p b r q o k.0) (go os k.1)

module _ (codec : Codec) where
  -- The message of the inventory that it holds the goods, and that of the payment's result.
  abbrev pub reserved : InventoryResult → KafkaRecord
  reserved x = record {
    topic = topic_inventory_reserved;
    key = x.order.idempotency_key;
    value = codec.encode_inventory x;
  }

  abbrev pub settled : Bool → PaymentResult → KafkaRecord
  settled succeeded y = record {
    topic = if succeeded then topic_payment_succeeded else topic_payment_failed;
    key = y.order.idempotency_key;
    value = codec.encode_payment y;
  }

  handle-reserved :
      (x : InventoryResult)
      → codec.decode_inventory (codec.encode_inventory x) ≡ some x
      → handle codec (reserved x)
        ≡ modify (update_order x.order.order_id (inventory_row true x.reason))
  unfolding handle handle_inventory apply_inventory_result
  handle-reserved x back = rw back

  handle-settled_result :
      (b : Bool) (y : PaymentResult)
      → codec.decode_payment (codec.encode_payment y) ≡ some y
      → handle codec (settled b y)
        ≡ modify (update_order y.order.order_id (payment_row y.payment_id b y.reason))
  unfolding handle handle_payment apply_payment_result
  handle-settled_result true y back = rw back
  handle-settled_result false y back = rw back

  -- A payment's result and the reservation may arrive in either order: the orders end the same,
  -- where both messages decode to what was encoded and no order is parked in inventory_pending
  -- (a status that this service never writes).
  pub reserved-settled_commute :
      (x : InventoryResult) (b : Bool) (y : PaymentResult) (s : OrderStore)
      → codec.decode_inventory (codec.encode_inventory x) ≡ some x
      → codec.decode_payment (codec.encode_payment y) ≡ some y
      → All NotParked s.orders
      → (handle codec (reserved x) >> handle codec (settled b y)) (calm s)
        ≡ (handle codec (settled b y) >> handle codec (reserved x)) (calm s)
  unfolding ◌>>=◌ statement
  reserved-settled_commute x b y s bx by h =
      rw (handle-reserved x bx, handle-settled_result b y by)
        (rw (update_commute x.order.order_id y.order.order_id y.payment_id b x.reason y.reason s h))
