-- ===== src/Bff/Gateway/Accepted.antt =====
-- What the gateway asks for passes the checks of the order service.
use pingu_coin.Base.{String, if◌then◌else◌}
use pingu_coin.Base.Int.{ℤ, pos, leb_ℤ, mul64}
use pingu_coin.Base.Text.{trim_space}
use pingu_coin.Order.Model.{Order, pending}
use pingu_coin.Bff.Backend.{Claims}
use pingu_coin.Bff.Orders.{CreateOrderBody}
use pingu_coin.Bff.Gateway.{chosen_currency}

module _ (to_upper : String → String) (claims : Claims) (header : String) (b : CreateOrderBody)
    (price : ℤ) where
  abbrev pub key : String
  key = trim_space header

  -- The order that the order service is asked for.
  abbrev pub wanted : Order
  wanted = record {
    id = 0;
    user_id = claims.user_id;
    product_id = b.product_id;
    quantity = if leb_ℤ b.quantity (pos 0) then pos 1 else b.quantity;
    unit_price = price;
    total_amount = mul64 price (if leb_ℤ b.quantity (pos 0) then pos 1 else b.quantity);
    payment_id = 0;
    payment_method = trim_space b.payment_method;
    currency =
        to_upper (trim_space (chosen_currency to_upper (trim_space b.payment_method) b.currency));
    action_url = "";
    status = pending;
    idempotency_key = key;
    failure_reason = "";
  }
