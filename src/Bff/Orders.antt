-- ===== src/Bff/Orders.antt =====
-- services/bff/internal/httpapi/order_handler.go.
pub mod Booked
pub mod Placed
pub mod Completion
use pingu_coin.Base.{ℕ, String, List, map, Option, none, some, ◌==◌, ◌^◌, leb, ◌%◌, if◌then◌else◌}
use pingu_coin.Base.Int.{ℤ, pos, leb_ℤ, mul64, wrap32, neg32}
use pingu_coin.Base.Text.{◌is◌, ◌<>◌, trim_space, parse_uint}
use pingu_coin.Base.Store.{
  Result, ok, err, is_missing, is_duplicated, M, pure, ◌>>=◌, ◌>>◌, statement, attempt,
}
use pingu_coin.Media.Catalog.Model.{Product}
use pingu_coin.Order.Server.{is_method}
use pingu_coin.Bff.Errors.{
  AppError, missing_error, invalid_error, login_error, internal_error, from_grpc,
}
use pingu_coin.Bff.Backend.{
  Order, Claims, HttpRequest, Response, json, error, PaymentRequest, PaymentMessage, StockRequest,
  get_product, adjust_stock, create_payment, Answer, answer, fault, Backend, OrderResult, created,
  replayed, rejected, out_of_stock, insufficient_point, failed, BffStore, call, record_order,
}
use pingu_coin.Bff.Repository.{insert_order, find_order, find_by_key, find_by_user}

-- `createOrderRequest`
pub record CreateOrderBody : Type 0 where
  pub product_id : ℕ
  pub quantity : ℤ
  pub payment_method : String
  pub currency : String

-- `orderResponse`
pub record OrderResponse : Type 0 where
  pub id : ℕ
  pub user_id : ℕ
  pub product_id : ℕ
  pub quantity : ℤ
  pub unit_price : ℤ
  pub total_amount : ℤ
  pub payment_id : ℕ
  pub status : String
  pub payment_method : String
  pub currency : String
  pub action_url : String

unfoldable pub to_order_response : Order → OrderResponse
to_order_response o = record {
  id = o.id;
  user_id = o.user_id;
  product_id = o.product_id;
  quantity = o.quantity;
  unit_price = o.unit_price;
  total_amount = o.total_amount;
  payment_id = o.payment_id;
  status = o.status;
  payment_method = "";
  currency = "";
  action_url = "";
}

-- `orderStatusFromPayment`
unfoldable pub order_status_from_payment : String → String
order_status_from_payment status =
    if status is "succeeded"
    then "paid"
    else if status is "pending"
    then "pending"
    else if status is "processing"
    then "pending"
    else "failed"

-- `orderFailureResult`
unfoldable pub order_failure_result : AppError → OrderResult → OrderResult
order_failure_result e business =
    if e.http_status == 409 then business else if leb 500 e.http_status then failed else rejected

-- An error that is counted as it is answered.
unfoldable pub reject : OrderResult → AppError → M BffStore (Response OrderResponse)
unfolding record_order ◌>>=◌
reject result e = do record_order result (pos 0); pure (error e)

unfoldable pub replay : Order → M BffStore (Response OrderResponse)
unfolding record_order to_order_response ◌>>=◌
replay o = do record_order replayed (pos 0); pure (json 200 (to_order_response o))

-- The body with its defaults.
unfoldable pub with_defaults : CreateOrderBody → CreateOrderBody
with_defaults b =
    let method = if b.payment_method is "" then "point" else b.payment_method in
    record {
      product_id = b.product_id;
      quantity = if leb_ℤ b.quantity (pos 0) then pos 1 else b.quantity;
      payment_method = method;
      currency =
          if b.currency is "" then (if method is "point" then "POINT" else "JPY") else b.currency;
    }

module _ (key : String) (b : CreateOrderBody) where
  -- What is taken from the stock, and what is put back.
  abbrev pub taking : StockRequest
  taking = record {
    product_id = b.product_id;
    amount = neg32 (wrap32 b.quantity);
    reason = "order";
    idempotency_key = key;
  }

  abbrev pub releasing : StockRequest
  releasing = record {
    product_id = b.product_id;
    amount = wrap32 b.quantity;
    reason = "order payment failed";
    idempotency_key = key <> ":release";
  }

  module _ (claims : Claims) (price : ℤ) where
    abbrev pub charging : PaymentRequest
    charging = record {
      user_id = claims.user_id % 2 ^ 32;
      product_id = b.product_id;
      amount = mul64 price b.quantity;
      currency = b.currency;
      payment_method = b.payment_method;
      idempotency_key = key;
      purpose = "";
    }

    abbrev pub ordered : PaymentMessage → Order
    ordered p = record {
      id = 0;
      user_id = claims.user_id;
      product_id = b.product_id;
      quantity = b.quantity;
      unit_price = price;
      total_amount = mul64 price b.quantity;
      payment_id = p.id;
      status = order_status_from_payment p.status;
      idempotency_key = key;
    }

unfoldable pub refetched : Result Order → M BffStore (Response OrderResponse)
unfolding replay reject
refetched (ok existing) = replay existing
refetched (err _) = reject failed internal_error

unfoldable pub refetch : String → M BffStore (Response OrderResponse)
unfolding find_by_key refetched ◌>>=◌
refetch key = do r ← attempt (find_by_key key); refetched r

unfoldable pub stored : String → Result Order → M BffStore (Response OrderResponse)
unfolding record_order to_order_response refetch reject ◌>>=◌
stored key (ok row) = do
  record_order created row.total_amount
  pure (json 201 (to_order_response row))
stored key (err e) = if is_duplicated e then refetch key else reject failed internal_error

module _ (backend : Backend) (claims : Claims) (key : String) where
  module _ (b : CreateOrderBody) where
    unfoldable pub paid : ℤ → Answer PaymentMessage → M BffStore (Response OrderResponse)
    unfolding call from_grpc order_failure_result reject insert_order stored
        order_status_from_payment ◌>>=◌
    paid price (fault e) = do
      call (λ calls. backend.stock calls (releasing key b)) (adjust_stock (releasing key b))
      reject (order_failure_result (from_grpc e) insufficient_point) (from_grpc e)
    paid price (answer p) = do
      r ← attempt (statement (insert_order (ordered key b claims price p)))
      stored key r

    unfoldable pub taken : ℤ → Answer (Unit {0}) → M BffStore (Response OrderResponse)
    unfolding call from_grpc order_failure_result reject paid ◌>>=◌
    taken price (fault e) = reject (order_failure_result (from_grpc e) out_of_stock) (from_grpc e)
    taken price (answer _) = do
      a ←
          call (λ calls. backend.payment calls (charging key b claims price))
            (create_payment (charging key b claims price))
      paid price a

    unfoldable pub priced : Answer Product → M BffStore (Response OrderResponse)
    unfolding call from_grpc order_failure_result reject taken ◌>>=◌
    priced (fault e) = reject (order_failure_result (from_grpc e) rejected) (from_grpc e)
    priced (answer product) = do
      a ← call (λ calls. backend.stock calls (taking key b)) (adjust_stock (taking key b))
      taken product.price a

    unfoldable pub order_product : M BffStore (Response OrderResponse)
    unfolding call priced ◌>>=◌
    order_product = do
      a ← call (λ calls. backend.product calls b.product_id) (get_product b.product_id)
      priced a

  unfoldable pub order_body : CreateOrderBody → M BffStore (Response OrderResponse)
  unfolding order_product
  order_body b =
      if is_method b.payment_method
      then order_product b
      else pure (error (invalid_error "unsupported payment_method"))

  unfoldable pub order_decoded : Option CreateOrderBody → M BffStore (Response OrderResponse)
  unfolding with_defaults order_body reject
  order_decoded none = reject rejected (invalid_error "invalid request body")
  order_decoded (some b) =
      if b.product_id == 0
      then reject rejected (invalid_error "product_id is required")
      else order_body (with_defaults b)

  unfoldable pub order_looked_up :
      Option CreateOrderBody → Result Order → M BffStore (Response OrderResponse)
  unfolding replay order_decoded reject
  order_looked_up body (ok existing) = replay existing
  order_looked_up body (err e) =
      if is_missing e then order_decoded body else reject failed internal_error

  unfoldable pub order_keyed : Option CreateOrderBody → M BffStore (Response OrderResponse)
  unfolding find_by_key order_looked_up ◌>>=◌
  order_keyed body = do r ← attempt (find_by_key key); order_looked_up body r

module _ (backend : Backend) where
  unfoldable pub order_as :
      Option Claims → String → Option CreateOrderBody → M BffStore (Response OrderResponse)
  unfolding order_keyed reject
  order_as none key body = reject rejected (login_error "login is required")
  order_as (some claims) key body =
      if key is ""
      then reject rejected (invalid_error "Idempotency-Key header is required")
      else order_keyed backend claims key body

  -- `CreateOrder`
  unfoldable pub create_order : HttpRequest CreateOrderBody → M BffStore (Response OrderResponse)
  unfolding trim_space order_as
  create_order r = order_as r.user (trim_space r.key) r.body

-- `ListOrders`
unfoldable pub listed : Result (List Order) → Response (List OrderResponse)
unfolding to_order_response
listed (ok orders) = json 200 (map to_order_response orders)
listed (err _) = error internal_error

unfoldable pub list_as : Option Claims → M BffStore (Response (List OrderResponse))
unfolding find_by_user listed ◌>>=◌
list_as none = pure (error (login_error "login is required"))
list_as (some claims) = do r ← attempt (find_by_user claims.user_id); pure (listed r)

unfoldable pub list_orders : HttpRequest (Unit {0}) → M BffStore (Response (List OrderResponse))
unfolding list_as
list_orders r = list_as r.user

-- `GetOrder`
unfoldable pub shown : Claims → Result Order → Response OrderResponse
unfolding to_order_response
shown claims (ok o) =
    if o.user_id == claims.user_id
    then json 200 (to_order_response o)
    else error (missing_error "order")
shown claims (err e) = error (if is_missing e then missing_error "order" else internal_error)

unfoldable pub get_numbered : Claims → Option ℕ → M BffStore (Response OrderResponse)
unfolding find_order shown ◌>>=◌
get_numbered claims none = pure (error (invalid_error "invalid order id"))
get_numbered claims (some id) = do r ← attempt (find_order id); pure (shown claims r)

unfoldable pub get_as : Option Claims → String → M BffStore (Response OrderResponse)
unfolding parse_uint get_numbered
get_as none id = pure (error (login_error "login is required"))
get_as (some claims) id = get_numbered claims (parse_uint 64 id)

unfoldable pub get_order : HttpRequest (Unit {0}) → M BffStore (Response OrderResponse)
unfolding get_as
get_order r = get_as r.user r.path_id
