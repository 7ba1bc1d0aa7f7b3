-- ===== src/Bff/Orders/Completion.antt =====
-- An order for which all goes well, and how many pieces it takes from the stock.
use pingu_coin.Base.{
  ℕ, String, [], ◌∷◌, ◌++◌, true, false, some, none, suc, ◌≡◌, ◌+◌, ◌*◌, ◌^◌, ◌<◌, ◌==◌, find_first,
  arith, refl, ap,
}
use pingu_coin.Base.Rows.{find_first-missing}
use pingu_coin.Base.Int.{pos, mul64, neg32, wrap32, ◌-ℤ◌, sub_ℕ}
use pingu_coin.Base.Text.{◌is◌, trim_space}
use pingu_coin.Base.Store.{ok, calm, ◌>>=◌, statement, aside}
use pingu_coin.Media.Catalog.Model.{Product}
use pingu_coin.Order.Server.{is_method}
use pingu_coin.Bff.Errors.{RpcError, from_grpc}
use pingu_coin.Bff.Backend.{
  Claims, HttpRequest, json, error, PaymentMessage, answer, fault, Backend, created,
  insufficient_point, BffStore, with_result, call, record_order,
}
use pingu_coin.Bff.Repository.{has_key, insert_order, find_by_key}
use pingu_coin.Bff.Orders.{
  CreateOrderBody, to_order_response, order_failure_result, reject, with_defaults, taking, charging,
  stored, paid, taken, priced, order_product, order_body, order_decoded, order_looked_up,
  order_keyed, order_as, create_order,
}
use pingu_coin.Bff.Orders.Booked.{looked, stocked, charged, released, row}

-- What `-int32(…)` takes for 2^32 n + k pieces is k pieces.
taking_wraps :
    (key : String) (body : CreateOrderBody) (n k : ℕ)
    → k < 2 ^ 31
    → body.quantity ≡ pos (2 ^ 32 * n + k)
    → (taking key body).amount ≡ sub_ℕ 0 k
unfolding neg32 wrap32 ◌-ℤ◌
taking_wraps key body n k small q = rw q (ground arith)

-- A quantity above zero is not changed by the defaults.
kept_quantity :
    (body : CreateOrderBody) (m : ℕ)
    → 0 < m
    → body.quantity ≡ pos m
    → (with_defaults body).quantity ≡ pos m
unfolding with_defaults
kept_quantity body m positive q = rw q (ground arith)

module _ (backend : Backend) (request : HttpRequest CreateOrderBody) (s : BffStore)
    (claims : Claims) (body : CreateOrderBody) (product : Product) (p : PaymentMessage) where
  abbrev pub key : String
  key = trim_space request.key

  -- The body with its defaults.
  abbrev pub b : CreateOrderBody
  b = with_defaults body

  -- The gateway with the order.
  abbrev pub with_order : BffStore
  with_order =
      with_result created (mul64 product.price b.quantity)
        (record (charged backend claims key b s product.price) {
          orders = s.orders ++ row backend claims key b s product.price p ∷ [];
          next_order = suc s.next_order;
        })

  -- A logged-in user's request with a new key and a known payment method, whose product has a price,
  -- a stock and a payment by the services' answers, is answered by 201 and stored, with its three
  -- calls, where no statement fails.
  pub create_order-completes :
      request.user ≡ some claims
      → request.body ≡ some body
      → (key is "") ≡ false
      → find_first (has_key key) s.orders ≡ none
      → (body.product_id == 0) ≡ false
      → is_method b.payment_method ≡ true
      → backend.product s.calls b.product_id ≡ answer product
      → backend.stock (looked backend claims key b s).calls (taking key b) ≡ answer tt
      → backend.payment (stocked backend claims key b s).calls (charging key b claims product.price)
        ≡ answer p
      → create_order backend request (calm s) ≡ (
        ok (json 201 (to_order_response (row backend claims key b s product.price p))),
        calm with_order,
      )
  unfolding create_order order_as order_keyed find_by_key order_looked_up order_decoded order_body
      order_product call aside priced taken paid insert_order stored record_order ◌>>=◌ statement
  create_order-completes user sent keyed new goods known price stock pays =
      rw
        (
          user,
          sent,
          keyed,
          new,
          goods,
          known,
          price,
          stock,
          pays,
          find_first-missing (has_key key) s.orders new,
        )
        refl

  -- The gateway behind a payment that was refused.
  abbrev pub refused : RpcError → BffStore
  refused e =
      with_result (order_failure_result (from_grpc e) insufficient_point) (pos 0)
        (released backend claims key b s product.price)

  -- The same request whose payment is refused gets the error of the payment; no order is stored, and
  -- the stock is called a second time.
  pub create_order-refused :
      (e : RpcError)
      → request.user ≡ some claims
      → request.body ≡ some body
      → (key is "") ≡ false
      → find_first (has_key key) s.orders ≡ none
      → (body.product_id == 0) ≡ false
      → is_method b.payment_method ≡ true
      → backend.product s.calls b.product_id ≡ answer product
      → backend.stock (looked backend claims key b s).calls (taking key b) ≡ answer tt
      → backend.payment (stocked backend claims key b s).calls (charging key b claims product.price)
        ≡ fault e
      → create_order backend request (calm s) ≡ (ok (error (from_grpc e)), calm (refused e))
  unfolding create_order order_as order_keyed find_by_key order_looked_up order_decoded order_body
      order_product call aside priced taken paid reject record_order ◌>>=◌ statement
  create_order-refused e user sent keyed new goods known price stock pays =
      rw (user, sent, keyed, new, goods, known, price, stock, pays) refl

  -- Such an order for 2^32 n + k pieces, k positive and below 2^31, is answered by 201 and stored
  -- with all its pieces and a total for all of them (in 64 bits), while the call for the stock takes k.
  pub create_order-takes_wrapped :
      (n k : ℕ)
      → 0 < k
      → k < 2 ^ 31
      → body.quantity ≡ pos (2 ^ 32 * n + k)
      → request.user ≡ some claims
      → request.body ≡ some body
      → (key is "") ≡ false
      → find_first (has_key key) s.orders ≡ none
      → (body.product_id == 0) ≡ false
      → is_method b.payment_method ≡ true
      → backend.product s.calls b.product_id ≡ answer product
      → backend.stock (looked backend claims key b s).calls (taking key b) ≡ answer tt
      → backend.payment (stocked backend claims key b s).calls (charging key b claims product.price)
        ≡ answer p
      → (create_order backend request (calm s) ≡ (
        ok (json 201 (to_order_response (row backend claims key b s product.price p))),
        calm with_order,
      ))
        × ((row backend claims key b s product.price p).quantity ≡ pos (2 ^ 32 * n + k))
        × ((charging key b claims product.price).amount
            ≡ mul64 product.price (pos (2 ^ 32 * n + k)))
        × ((taking key b).amount ≡ sub_ℕ 0 k)
  create_order-takes_wrapped n k positive small q user sent keyed new goods known price stock pays =
      let pieces = kept_quantity body (2 ^ 32 * n + k) (omega arith) q in
      (
        create_order-completes user sent keyed new goods known price stock pays,
        pieces,
        ap (mul64 product.price) pieces,
        taking_wraps key b n k small pieces,
      )
