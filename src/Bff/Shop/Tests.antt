-- ===== src/Bff/Shop/Tests.antt =====
-- A buyer of two pieces of which the shop has five.
use pingu_coin.Base.{ℕ, List, [], ◌∷◌, some, ◌≡◌, refl, arith}
use pingu_coin.Base.Int.{pos}
use pingu_coin.Base.Text.{trim_space}
use pingu_coin.Base.Store.{ok, calm}
use pingu_coin.Media.Model.{ProductInventory, MediaStore}
use pingu_coin.Media.Catalog.Model.{Product}
use pingu_coin.Bff.Errors.{no_status, from_grpc}
use pingu_coin.Bff.Backend.{
  RemoteCall, HttpRequest, json, error, PaymentRequest, PaymentMessage, Answer, answer, fault,
  Backend, BffStore,
}
use pingu_coin.Bff.Orders.{CreateOrderBody, to_order_response, with_defaults, create_order}
use pingu_coin.Bff.Orders.Booked.{row}
use pingu_coin.Bff.Shop.{media_after, with_media}
use pingu_coin.Bff.Shop.Taken.{Offered}
use pingu_coin.Bff.Shop.Retried.{
  sold, first, second, quantity_of, create_order-sold, create_order-retried,
}
use pingu_coin.Bff.Tests.{buyer, fish, receipt, new_gateway}

abbrev five : ProductInventory
five = record { id = 1; product_id = 3; quantity = pos 5; reserved = pos 0; version = 1 }

abbrev shelf : MediaStore
shelf = record {
  inventories = five ∷ [];
  next_inventory = 2;
  transactions = [];
  next_transaction = 1;
}

abbrev two : CreateOrderBody
two = record { product_id = 3; quantity = pos 2; payment_method = "point"; currency = "" }

abbrev buying_two : HttpRequest CreateOrderBody
buying_two = record {
  user = some buyer;
  key = "k1";
  path_id = "";
  query = λ _. "";
  body = some two;
}

abbrev fishes : List RemoteCall → ℕ → Answer Product
fishes _ _ = answer fish

abbrev accepts : List RemoteCall → PaymentRequest → Answer PaymentMessage
accepts _ _ = answer receipt

-- The first payment is refused, the next is accepted.
abbrev refuses_once : List RemoteCall → PaymentRequest → Answer PaymentMessage
refuses_once (_ ∷ _ ∷ []) _ = fault no_status
refuses_once _ _ = answer receipt

two-Offered : Offered (media_after [] shelf) (trim_space "k1") (with_defaults two) five 5 2
unfolding media_after trim_space with_defaults
two-Offered = record {
  goods = refl;
  pieces = refl;
  positive = omega arith;
  small = omega arith;
  fits = omega arith;
  large = omega arith;
  shelf = refl;
  held = refl;
  keyed = refl;
  unused = refl;
  release_keyed = refl;
  release_unused = refl;
  apart = refl;
}

abbrev honest : Backend
honest = with_media shelf fishes accepts

abbrev picky : Backend
picky = with_media shelf fishes refuses_once

abbrev at_once : BffStore
at_once = sold shelf fishes accepts buying_two new_gateway buyer two fish receipt no_status five 5 2

abbrev refused_once : BffStore
refused_once =
    first shelf fishes refuses_once buying_two new_gateway buyer two fish receipt no_status five 5 2

abbrev in_the_end : BffStore
in_the_end =
    second shelf fishes refuses_once buying_two new_gateway buyer two fish receipt no_status five 5
      2

create_order-sold_example :
    (create_order honest buying_two (calm new_gateway) ≡ (
      ok (
          json 201 (
            to_order_response (
              row honest buyer (trim_space "k1") (with_defaults two) new_gateway (pos 5) receipt))),
      calm at_once,
    ))
    × ((row honest buyer (trim_space "k1") (with_defaults two) new_gateway (pos 5) receipt).quantity
        ≡ pos 2)
    × (quantity_of 3 (media_after at_once.calls shelf) ≡ some (pos 3))
unfolding with_defaults
create_order-sold_example =
    create_order-sold shelf fishes accepts buying_two new_gateway buyer two fish receipt no_status
      five 5 2 two-Offered refl refl refl refl refl refl

create_order-retried_example :
    (create_order picky buying_two (calm new_gateway)
      ≡ (ok (error (from_grpc no_status)), calm refused_once))
    × (quantity_of 3 (media_after refused_once.calls shelf) ≡ some (pos 5))
    × (create_order picky buying_two (calm refused_once) ≡ (
      ok (
          json 201 (
            to_order_response (
              row picky buyer (trim_space "k1") (with_defaults two) refused_once (pos 5) receipt))),
      calm in_the_end,
    ))
    × ((row picky buyer (trim_space "k1") (with_defaults two) refused_once (pos 5) receipt).quantity
        ≡ pos 2)
    × (quantity_of 3 (media_after in_the_end.calls shelf) ≡ some (pos 5))
unfolding with_defaults
create_order-retried_example =
    create_order-retried shelf fishes refuses_once buying_two new_gateway buyer two fish receipt
      no_status five 5 2 two-Offered refl refl refl refl refl refl refl refl
