-- ===== src/Bff/Shop/Retried.antt =====
-- An order as the stock of media-api sees it: one that is paid, and one whose payment is refused
-- and that is sent again with the same Idempotency-Key.
use pingu_coin.Base.{ℕ, String, List, true, false, Option, some, none, ◌≡◌, ◌-◌, find_first, ap}
use pingu_coin.Base.Int.{ℤ, pos}
use pingu_coin.Base.Text.{◌is◌, trim_space, trim_space_idem}
use pingu_coin.Base.Store.{ok, calm}
use pingu_coin.Base.Rpc.{reply}
use pingu_coin.Media.Model.{ProductInventory, MediaStore}
use pingu_coin.Media.Repository.{is_row_of}
use pingu_coin.Media.Catalog.Model.{Product}
use pingu_coin.Order.Server.{is_method}
use pingu_coin.Bff.Errors.{RpcError, from_grpc}
use pingu_coin.Bff.Backend.{
  RemoteCall, get_product, adjust_stock, create_payment, Claims, HttpRequest, json, error,
  PaymentRequest, PaymentMessage, Answer, answer, fault, Backend, BffStore,
}
use pingu_coin.Bff.Repository.{has_key}
use pingu_coin.Bff.Orders.{
  CreateOrderBody, to_order_response, with_defaults, taking, releasing, charging, create_order,
}
use pingu_coin.Bff.Orders.Booked.{looked, stocked, charged, row}
use pingu_coin.Bff.Orders.Completion.{
  with_order, refused, create_order-refused, create_order-completes,
}
use pingu_coin.Bff.Shop.{
  adjust, media_call, media_after, media_after-append, stock_answer, with_media,
}
use pingu_coin.Bff.Shop.Taken.{
  Offered, taken_stock, given_stock, given_all, taken_left, takes, gives, taken-shelf, given-shelf,
  takes_nothing,
}

-- How many pieces of a product there are.
abbrev pub quantity_of : ℕ → MediaStore → Option ℤ
quantity_of product m = quantity_in (find_first (is_row_of product) m.inventories)
  where
    quantity_in : Option ProductInventory → Option ℤ
    quantity_in none = none
    quantity_in (some i) = some i.quantity

module _ (media : MediaStore) (products : List RemoteCall → ℕ → Answer Product)
    (payments : List RemoteCall → PaymentRequest → Answer PaymentMessage)
    (request : HttpRequest CreateOrderBody) (s : BffStore) (claims : Claims)
    (body : CreateOrderBody) (product : Product) (p : PaymentMessage) (e : RpcError)
    (i : ProductInventory) (h n : ℕ) where
  abbrev pub services : Backend
  services = with_media media products payments

  abbrev pub key : String
  key = trim_space request.key

  abbrev pub b : CreateOrderBody
  b = with_defaults body

  -- The stock before the first request.
  abbrev pub before : MediaStore
  before = media_after s.calls media

  -- The gateway with the order.
  abbrev pub sold : BffStore
  sold = with_order services request s claims body product p

  -- The gateway behind the first request, and behind the second.
  abbrev pub first : BffStore
  first = refused services request s claims body product p e

  abbrev pub second : BffStore
  second = with_order services request first claims body product p

  module _ (offer : Offered before key b i h n) where
    looked_stock : media_after (looked services claims key b s).calls media ≡ before
    unfolding media_call
    looked_stock = media_after-append s.calls (get_product b.product_id) media

    stocked_stock :
        media_after (stocked services claims key b s).calls media ≡ taken_stock before key b i
    unfolding media_call
    stocked_stock =
        rw
          (
            media_after-append (looked services claims key b s).calls (adjust_stock (taking key b))
                media,
            looked_stock,
          )
          (ap (λ x. x.1.store) (takes before key b i h n offer))

    sold_stock : media_after sold.calls media ≡ taken_stock before key b i
    unfolding media_call
    sold_stock =
        rw
          (media_after-append (stocked services claims key b s).calls
            (create_payment (charging key b claims product.price)) media)
          stocked_stock

    first_stock : media_after first.calls media ≡ given_stock before key b i
    unfolding media_call
    first_stock =
        rw
          (
            media_after-append (charged services claims key b s product.price).calls
                (adjust_stock (releasing key b)) media,
            media_after-append (stocked services claims key b s).calls
                (create_payment (charging key b claims product.price)) media,
            stocked_stock,
          )
          (ap (λ x. x.1.store) (gives before key b i h n offer))

    again_stock :
        media_after (looked services claims key b first).calls media ≡ given_stock before key b i
    unfolding media_call
    again_stock = rw (media_after-append first.calls (get_product b.product_id) media) first_stock

    second_stock : media_after second.calls media ≡ given_stock before key b i
    unfolding media_call
    second_stock =
        rw
          (
            media_after-append (stocked services claims key b first).calls
                (create_payment (charging key b claims product.price)) media,
            media_after-append (looked services claims key b first).calls
                (adjust_stock (taking key b)) media,
            again_stock,
          )
          (ap (λ x. x.1.store) (takes_nothing before key b i h n offer))

    stock_answers :
        (calls : List RemoteCall) (m t : MediaStore) (x : ProductInventory)
        → media_after calls media ≡ m
        → adjust (taking key b) m ≡ (ok (reply x), calm t)
        → services.stock calls (taking key b) ≡ answer tt
    unfolding stock_answer
    stock_answers calls m t x at_m moves = rw at_m (ap (λ a. stock_answer a.0) moves)

    wanted_key : (key is "") ≡ false
    wanted_key = rw (trim_space_idem request.key) at offer.keyed

    -- A logged-in user's request with a new key, for n pieces (0 < n < 2^31) of a product of which
    -- media-api has h (n ≤ h < 2^63), whose payment is answered without an error, is answered by 201
    -- and stored as an order of n pieces, and h - n are left. No statement fails, and media-api knows
    -- neither the key nor that of a release, which is another.
    pub create_order-sold :
        request.user ≡ some claims
        → request.body ≡ some body
        → find_first (has_key key) s.orders ≡ none
        → is_method b.payment_method ≡ true
        → products s.calls b.product_id ≡ answer product
        → payments (stocked services claims key b s).calls (charging key b claims product.price)
          ≡ answer p
        → (create_order services request (calm s) ≡ (
          ok (json 201 (to_order_response (row services claims key b s product.price p))),
          calm sold,
        ))
          × ((row services claims key b s product.price p).quantity ≡ pos n)
          × (quantity_of b.product_id (media_after sold.calls media) ≡ some (pos (h - n)))
    unfolding with_defaults
    create_order-sold user sent new known price payment = (
      create_order-completes services request s claims body product p user sent wanted_key new
          offer.goods known price
          (stock_answers (looked services claims key b s).calls before _ _ looked_stock
            (takes before key b i h n offer))
          payment,
      offer.pieces,
      rw sold_stock (
          rw (taken-shelf before key b i h n offer)
            (ap some (taken_left before key b i h n offer))),
    )

    kept_stock : quantity_of b.product_id (given_stock before key b i) ≡ some (pos h)
    kept_stock =
        rw (given-shelf before key b i h n offer) (ap some (given_all before key b i h n offer))

    -- A logged-in user's request with a new key, for n pieces (0 < n < 2^31) of a product of which
    -- media-api has h (n ≤ h < 2^63), whose payment is refused, gets the error, and its pieces are
    -- given back. Sent again with the same key, and its payment answered without an error, it is
    -- answered by 201 and stored as an order of n pieces, while the stock stays at h: media-api has a
    -- transaction under the key. No statement fails, and before the first request media-api knows
    -- neither the key nor that of a release, which is another.
    pub create_order-retried :
        request.user ≡ some claims
        → request.body ≡ some body
        → find_first (has_key key) s.orders ≡ none
        → is_method b.payment_method ≡ true
        → products s.calls b.product_id ≡ answer product
        → products first.calls b.product_id ≡ answer product
        → payments (stocked services claims key b s).calls (charging key b claims product.price)
          ≡ fault e
        → payments (stocked services claims key b first).calls (charging key b claims product.price)
          ≡ answer p
        → (create_order services request (calm s) ≡ (ok (error (from_grpc e)), calm first))
          × (quantity_of b.product_id (media_after first.calls media) ≡ some (pos h))
          × (create_order services request (calm first) ≡ (
            ok (json 201 (to_order_response (row services claims key b first product.price p))),
            calm second,
          ))
          × ((row services claims key b first product.price p).quantity ≡ pos n)
          × (quantity_of b.product_id (media_after second.calls media) ≡ some (pos h))
    unfolding with_defaults
    create_order-retried user sent new known price price_again refusal payment = (
      create_order-refused services request s claims body product p e user sent wanted_key new
          offer.goods known price
          (stock_answers (looked services claims key b s).calls before _ _ looked_stock
            (takes before key b i h n offer))
          refusal,
      rw first_stock kept_stock,
      create_order-completes services request first claims body product p user sent wanted_key new
          offer.goods known price_again
          (stock_answers (looked services claims key b first).calls _ _ _ again_stock
            (takes_nothing before key b i h n offer))
          payment,
      offer.pieces,
      rw second_stock kept_stock,
    )
