-- ===== src/Bff/Gateway.antt =====
-- services/bff/internal/httpapi/order_gateway_handler.go: orders of the order service.
pub mod Accepted
use pingu_coin.Base.{ℕ, String, List, map, Bool, true, false, Option, none, some, if◌then◌else◌}
use pingu_coin.Base.Int.{ℤ}
use pingu_coin.Base.Text.{◌is◌, trim_space, parse_uint}
use pingu_coin.Base.Store.{M, pure, ◌>>=◌}
use pingu_coin.Media.Catalog.Model.{Product}
use pingu_coin.Order.Server.{CreateOrderRequest, is_method}
use pingu_coin.Bff.Errors.{invalid_error, login_error}
use pingu_coin.Bff.Backend.{Claims, HttpRequest, json, RemoteCall, Answer, call}
use pingu_coin.Bff.Handlers.{Handler, refuse_with, with_user, with_answer}
use pingu_coin.Bff.Orders.{CreateOrderBody, OrderResponse}

-- The order service: an order and whether it is a replay, the orders of a user, and one of them; and
-- the products of the media service. Each answers given the calls before it.
pub record OrderClient : Type 0 where
  pub product : List RemoteCall → ℕ → Answer Product
  pub create : List RemoteCall → CreateOrderRequest → Answer (OrderResponse × Bool)
  pub list : List RemoteCall → ℕ → Answer (List OrderResponse)
  pub get : List RemoteCall → ℕ → ℕ → Answer OrderResponse

module _ (to_upper : String → String) where
  -- The currency that is asked for, or that of the method.
  unfoldable pub chosen_currency : String → String → String
  unfolding trim_space
  chosen_currency method currency =
      let given = to_upper (trim_space currency) in
      if given is "" then (if method is "point" then "POINT" else "JPY") else given

  -- What the order service is asked for.
  unfoldable pub gateway_request : Claims → String → CreateOrderBody → ℤ → CreateOrderRequest
  unfolding trim_space chosen_currency
  gateway_request claims key b price = record {
    user_id = claims.user_id;
    product_id = b.product_id;
    quantity = b.quantity;
    unit_price = price;
    payment_method = trim_space b.payment_method;
    currency = chosen_currency (trim_space b.payment_method) b.currency;
    idempotency_key = key;
  }

  module _ (client : OrderClient) where
    abbrev pub created_code : Bool → ℕ
    created_code true = 200
    created_code false = 201

    unfoldable pub ask_order : CreateOrderRequest → Handler OrderResponse
    unfolding call with_answer ◌>>=◌
    ask_order r = do
      a ← call (λ calls. client.create calls r) (RemoteCall.create_order r)
      with_answer a (λ p. pure (json (created_code p.1) p.0))

    unfoldable pub gateway_priced :
        Claims → String → CreateOrderBody → Product → Handler OrderResponse
    unfolding ask_order gateway_request trim_space
    gateway_priced claims key b product =
        if is_method (trim_space b.payment_method)
        then ask_order (gateway_request claims key b product.price)
        else refuse_with (invalid_error "unsupported payment_method")

    unfoldable pub gateway_decoded :
        Claims → String → Option CreateOrderBody → Handler OrderResponse
    unfolding call with_answer gateway_priced ◌>>=◌
    gateway_decoded claims key none = refuse_with (invalid_error "invalid request body")
    gateway_decoded claims key (some b) = do
      a ← call (λ calls. client.product calls b.product_id) (RemoteCall.get_product b.product_id)
      with_answer a (gateway_priced claims key b)

    unfoldable pub gateway_keyed : String → Option CreateOrderBody → Claims → Handler OrderResponse
    unfolding gateway_decoded
    gateway_keyed key body claims =
        if key is ""
        then refuse_with (invalid_error "Idempotency-Key header is required")
        else gateway_decoded claims key body

    -- `CreateOrder`
    unfoldable pub gateway_create : HttpRequest CreateOrderBody → Handler OrderResponse
    unfolding with_user gateway_keyed trim_space
    gateway_create r = with_user r.user (gateway_keyed (trim_space r.key) r.body)

module _ (client : OrderClient) where
  unfoldable pub gateway_list_of : Claims → Handler (List OrderResponse)
  unfolding call with_answer ◌>>=◌
  gateway_list_of claims = do
    a ← call (λ calls. client.list calls claims.user_id) (RemoteCall.list_orders claims.user_id)
    with_answer a (λ orders. pure (json 200 orders))

  -- `ListOrders`
  unfoldable pub gateway_list : HttpRequest (Unit {0}) → Handler (List OrderResponse)
  unfolding with_user gateway_list_of
  gateway_list r = with_user r.user gateway_list_of

  unfoldable pub gateway_get_of : Option ℕ → Claims → Handler OrderResponse
  unfolding call with_answer ◌>>=◌
  gateway_get_of none claims = refuse_with (invalid_error "invalid order id")
  gateway_get_of (some id) claims = do
    a ← call (λ calls. client.get calls id claims.user_id) (RemoteCall.get_order id claims.user_id)
    with_answer a (λ order. pure (json 200 order))

  -- `GetOrder`
  unfoldable pub gateway_get : HttpRequest (Unit {0}) → Handler OrderResponse
  unfolding with_user parse_uint gateway_get_of
  gateway_get r = with_user r.user (gateway_get_of (parse_uint 64 r.path_id))
