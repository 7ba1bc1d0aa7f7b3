-- ===== src/Order/Server.antt =====
-- services/order-api/internal/grpcserver/server.go: the handlers of `OrderService`.
use pingu_coin.Base.{ℕ, String, List, Bool, not, ◌&&◌, ◌||◌, ◌==◌, if◌then◌else◌}
use pingu_coin.Base.Int.{ℤ, pos, leb_ℤ, mul64}
use pingu_coin.Base.Text.{◌is◌, trim_space}
use pingu_coin.Base.Store.{Result, ok, err, Error, M, pure, ◌>>=◌, attempt}
use pingu_coin.Base.Rpc.{
  invalid_argument, not_found, already_exists, internal, Reply, reply, refuse,
}
use pingu_coin.Flow.{Codec}
use pingu_coin.Order.Model.{pending, Order, OrderStore}
use pingu_coin.Order.Repository.{create_or_get, find, list, has_paid}

pub record CreateOrderRequest : Type 0 where
  pub user_id : ℕ
  pub product_id : ℕ
  pub quantity : ℤ
  pub unit_price : ℤ
  pub payment_method : String
  pub currency : String
  pub idempotency_key : String

abbrev pub is_method : String → Bool
is_method m = m is "point" || m is "card" || m is "credit_card" || m is "bank_transfer"

abbrev pub currency_fits : String → String → Bool
currency_fits method currency = not (
    (method is "point") && not (currency is "POINT")
    || not (method is "point") && not (currency is "JPY"))

module _ (to_upper : String → String) where
  -- The order that a request asks for, or why it is refused. `to_upper` is `strings.ToUpper`.
  unfoldable pub candidate : CreateOrderRequest → Reply Order
  candidate r =
      let key = trim_space r.idempotency_key in
      let quantity = if leb_ℤ r.quantity (pos 0) then pos 1 else r.quantity in
      let method = trim_space r.payment_method in
      let currency = to_upper (trim_space r.currency) in
      if r.user_id == 0 || r.product_id == 0 || (key is "")
      then refuse invalid_argument "user_id, product_id and idempotency_key are required"
      else if leb_ℤ r.unit_price (pos 0)
      then refuse invalid_argument "unit_price must be greater than zero"
      else if not (is_method method)
      then refuse invalid_argument "unsupported payment_method"
      else if not (currency_fits method currency)
      then refuse invalid_argument "currency does not match payment_method"
      else reply (record {
        id = 0;
        user_id = r.user_id;
        product_id = r.product_id;
        quantity = quantity;
        unit_price = r.unit_price;
        total_amount = mul64 r.unit_price quantity;
        payment_id = 0;
        payment_method = method;
        currency = currency;
        action_url = "";
        status = pending;
        idempotency_key = key;
        failure_reason = "";
      })

-- The answer to what the repository returned.
unfoldable pub created : Result (Order × Bool) → Reply (Order × Bool)
created (ok (order, replayed)) = reply (order, replayed)
created (err Error.idempotency_conflict) =
    refuse already_exists "idempotency key was already used for another order"
created (err _) = refuse internal "could not persist order"

module _ (to_upper : String → String) (codec : Codec) (topic : String) where
  unfoldable pub place : Reply Order → M OrderStore (Reply (Order × Bool))
  unfolding create_or_get created ◌>>=◌
  place (refuse code text) = pure (refuse code text)
  place (reply order) = do r ← attempt (create_or_get codec order topic); pure (created r)

  -- `CreateOrder`
  unfoldable pub create_order : CreateOrderRequest → M OrderStore (Reply (Order × Bool))
  unfolding candidate place
  create_order r = place (candidate to_upper r)

unfoldable pub looked_up : Result Order → Reply Order
looked_up (ok row) = reply row
looked_up (err Error.record_not_found) = refuse not_found "order not found"
looked_up (err _) = refuse internal "order lookup failed"

unfoldable pub get_order : ℕ → ℕ → M OrderStore (Reply Order)
unfolding find looked_up ◌>>=◌
get_order id user = do r ← attempt (find id user); pure (looked_up r)

abbrev answered : {A : Type 0} → Result A → Reply A
answered (ok a) = reply a
answered (err _) = refuse internal "order lookup failed"

unfoldable pub list_orders : ℕ → M OrderStore (Reply (List Order))
unfolding list ◌>>=◌
list_orders user = do r ← attempt (list user); pure (answered r)

unfoldable pub has_paid_order : ℕ → ℕ → M OrderStore (Reply Bool)
unfolding has_paid ◌>>=◌
has_paid_order user product = do r ← attempt (has_paid user product); pure (answered r)
