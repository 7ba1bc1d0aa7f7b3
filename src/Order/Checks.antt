-- ===== src/Order/Checks.antt =====
-- What the checks of `CreateOrder` let through.
use pingu_coin.Base.{ℕ, ◌+◌, ◌*◌, ◌^◌, ◌<◌, String, true, false, ◌≡◌, ◌≢◌, arith}
use pingu_coin.Base.Int.{pos, ◌≤ℤ◌, ◌*ℤ◌, mul64, wrap64}
use pingu_coin.Base.Text.{◌is◌}
use pingu_coin.Base.Rpc.{reply}
use pingu_coin.Order.Model.{Order, pending}
use pingu_coin.Order.Server.{CreateOrderRequest, candidate, is_method, currency_fits}

-- An order as the handler hands it to the repository.
pub record IsPlaceable (o : Order) : Type 0 where
  pub buyer : o.user_id ≢ 0
  pub goods : o.product_id ≢ 0
  pub keyed : (o.idempotency_key is "") ≡ false
  pub some_goods : pos 1 ≤ℤ o.quantity
  pub priced : pos 1 ≤ℤ o.unit_price
  pub known_method : is_method o.payment_method ≡ true
  pub matching : currency_fits o.payment_method o.currency ≡ true
  pub total : o.total_amount ≡ mul64 o.unit_price o.quantity
  pub fresh : o.status ≡ pending

-- Every order that passes the checks names a buyer, goods, a key, a positive price and quantity, and
-- a payment method with its currency; its total is the product in 64 bits.
pub candidate-IsPlaceable :
    (to_upper : String → String) (r : CreateOrderRequest) (o : Order)
    → candidate to_upper r ≡ reply o
    → IsPlaceable o
unfolding candidate
candidate-IsPlaceable to_upper r o h = ground arith

-- Nothing bounds the product: at a price of 2^62 + k with k below 2^61, an order of four pieces that
-- passes the checks costs 4 k.
pub candidate_wraps :
    (to_upper : String → String) (r : CreateOrderRequest) (o : Order) (k : ℕ)
    → candidate to_upper r ≡ reply o
    → k < 2 ^ 61
    → r.unit_price ≡ pos (2 ^ 62 + k)
    → r.quantity ≡ pos 4
    → o.total_amount ≡ pos (4 * k)
unfolding candidate mul64 wrap64 ◌*ℤ◌
candidate_wraps to_upper r o k h small price four = ground arith
