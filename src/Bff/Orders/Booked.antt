-- ===== src/Bff/Orders/Booked.antt =====
-- Which calls an order that passes the checks makes, and what they leave when it stops on the way.
use pingu_coin.Base.{
  String, List, [], ◌∷◌, ◌++◌, some, ◌≡◌, refl, find_first, exists, Bool-cases, inl, inr,
}
use pingu_coin.Base.Int.{ℤ, pos, mul64}
use pingu_coin.Base.Store.{
  Result, ok, err, Error, duplicated_key, unavailable, is_duplicated, ◌>>=◌, M, found, pure,
}
use pingu_coin.Base.Store.Laws.{
  Leads, leads_pure, leads_if, leads_aside, leads_attempt, leads_statement,
}
use pingu_coin.Base.Store.Rules.{leads_attempt_found, found→some}
use pingu_coin.Media.Catalog.Model.{Product}
use pingu_coin.Bff.Errors.{AppError, RpcError, internal_error, from_grpc}
use pingu_coin.Bff.Backend.{
  Order, Claims, Response, json, error, PaymentMessage, RemoteCall, get_product, adjust_stock,
  create_payment, Answer, answer, fault, Backend, OrderResult, insufficient_point, BffStore,
  with_call, with_result, call, record_order,
}
use pingu_coin.Bff.Repository.{has_key, insert_order, find_by_key}
use pingu_coin.Bff.Orders.{
  CreateOrderBody, OrderResponse, to_order_response, reject, replay, taking, order_failure_result,
  releasing, charging, ordered, refetched, refetch, stored, paid, taken, priced, order_product,
}

-- The same orders, and the same calls.
abbrev pub Leaves : BffStore → BffStore → Type 0
Leaves u t = (t.orders ≡ u.orders) × (t.calls ≡ u.calls)

abbrev pub Answered : Type 0
Answered = Result (Response OrderResponse)

pub reject-Leads :
    {Q : Answered → BffStore → Type 0} (x : OrderResult) (e : AppError) (u : BffStore)
    → Q (ok (error e)) (with_result x (pos 0) u)
    → Leads (reject x e) u Q
unfolding reject record_order
reject-Leads x e u q =
    leads_aside (λ s. (tt, with_result x (pos 0) s)) (λ _. pure (error e)) (leads_pure q)

pub replay-Leads :
    {Q : Answered → BffStore → Type 0} (o : Order) (u : BffStore)
    → Q (ok (json 200 (to_order_response o))) (with_result OrderResult.replayed (pos 0) u)
    → Leads (replay o) u Q
unfolding replay record_order
replay-Leads o u q =
    leads_aside (λ s. (tt, with_result OrderResult.replayed (pos 0) s))
      (λ _. pure (json 200 (to_order_response o))) (leads_pure q)

call-Leads :
    {A : Type 0} {Q : Answered → BffStore → Type 0} (f : List RemoteCall → Answer A)
    (c : RemoteCall) (g : Answer A → M BffStore (Response OrderResponse)) (u : BffStore)
    → Leads (g (f u.calls)) (with_call c u) Q
    → Leads (call f c >>= g) u Q
unfolding call
call-Leads f c g u l = leads_aside (λ s. (f s.calls, with_call c s)) g l

module _ (backend : Backend) (claims : Claims) (key : String) (b : CreateOrderBody)
    (s : BffStore) where
  -- The gateway behind each of the calls, in their order.
  abbrev pub looked : BffStore
  looked = with_call (get_product b.product_id) s

  abbrev pub stocked : BffStore
  stocked = with_call (adjust_stock (taking key b)) looked

  module _ (price : ℤ) where
    abbrev pub charged : BffStore
    charged = with_call (create_payment (charging key b claims price)) stocked

    abbrev pub released : BffStore
    released = with_call (adjust_stock (releasing key b)) charged

    abbrev pub row : PaymentMessage → Order
    row p = record (ordered key b claims price p) { id = s.next_order }

  abbrev Price : ℤ → Type 0
  Price price =
      (product : Product) × (backend.product s.calls b.product_id ≡ answer product)
      × (product.price ≡ price)

  abbrev Stock : Answer (Unit {0}) → Type 0
  Stock a = backend.stock looked.calls (taking key b) ≡ a

  abbrev Pay : ℤ → Answer PaymentMessage → Type 0
  Pay price a = backend.payment stocked.calls (charging key b claims price) ≡ a

  -- How an order that passes the checks ends: where it stops, what was called, and what was stored.
  pub data Booked (r : Answered) (t : BffStore) : Type 0 where
    unpriced :
        (e : RpcError)
        → backend.product s.calls b.product_id ≡ fault e
        → r ≡ ok (error (from_grpc e))
        → Leaves looked t
        → Booked r t
    unstocked :
        (e : RpcError)
        → Stock (fault e)
        → r ≡ ok (error (from_grpc e))
        → Leaves stocked t
        → Booked r t
    unpaid :
        (price : ℤ) (e : RpcError)
        → Price price
        → Stock (answer tt)
        → Pay price (fault e)
        → r ≡ ok (error (from_grpc e))
        → Leaves (released price) t
        → Booked r t
    unstored :
        (price : ℤ) (p : PaymentMessage)
        → Price price
        → Stock (answer tt)
        → Pay price (answer p)
        → r ≡ ok (error internal_error)
        → Leaves (charged price) t
        → Booked r t
    raced :
        (price : ℤ) (p : PaymentMessage) (o : Order)
        → Price price
        → Stock (answer tt)
        → Pay price (answer p)
        → find_first (has_key key) s.orders ≡ some o
        → r ≡ ok (json 200 (to_order_response o))
        → Leaves (charged price) t
        → Booked r t
    booked :
        (price : ℤ) (p : PaymentMessage)
        → Price price
        → Stock (answer tt)
        → Pay price (answer p)
        → r ≡ ok (json 201 (to_order_response (row price p)))
        → t.orders ≡ s.orders ++ row price p ∷ []
        → t.calls ≡ (charged price).calls
        → Booked r t

  module _ (price : ℤ) (p : PaymentMessage) (is_price : Price price) (has_stock : Stock (answer tt))
      (pays : Pay price (answer p)) where
    refetched-Booked :
        (r : Result Order)
        → ((o : Order) → r ≡ ok o → find_first (has_key key) s.orders ≡ some o)
        → Leads (refetched r) (charged price) Booked
    unfolding refetched
    refetched-Booked (ok o) h =
        replay-Leads o (charged price)
          (raced price p o is_price has_stock pays (h o refl) refl (refl, refl))
    refetched-Booked (err e) h =
        reject-Leads _ _ (charged price)
          (unstored price p is_price has_stock pays refl (refl, refl))

    refetch-Booked : Leads (refetch key) (charged price) Booked
    unfolding refetch find_by_key
    refetch-Booked =
        leads_attempt_found (λ x. find_first (has_key key) x.orders) refetched
          (refetched-Booked (found (find_first (has_key key) s.orders)) (λ o e. found→some _ o e))
          (refetched-Booked (err unavailable) (λ o e. cc))

    refused-Booked : (e : Error) → Leads (stored key (err e)) (charged price) Booked
    unfolding stored
    refused-Booked e =
        leads_if (is_duplicated e) (λ _. refetch-Booked)
          (λ _.
            reject-Leads _ _ (charged price)
              (unstored price p is_price has_stock pays refl (refl, refl)))

    inserted-Booked :
        Leads
          (stored key (insert_order (ordered key b claims price p) (charged price)).0)
          (insert_order (ordered key b claims price p) (charged price)).1
          Booked
    unfolding insert_order stored record_order
    inserted-Booked = elim (Bool-cases (exists (has_key key) s.orders)) [
      | inl taken_key ↦ rw taken_key (refused-Booked duplicated_key)
      | inr free ↦ rw free (
          leads_aside (λ u. (tt, with_result OrderResult.created (mul64 price b.quantity) u))
            (λ _. pure (json 201 (to_order_response (row price p))))
            (leads_pure (booked price p is_price has_stock pays refl refl refl)))
    ]

  paid-Booked :
      (price : ℤ) (a : Answer PaymentMessage)
      → Price price
      → Stock (answer tt)
      → Pay price a
      → Leads (paid backend claims key b price a) (charged price) Booked
  unfolding paid
  paid-Booked price (fault e) is_price has_stock pays =
      call-Leads (λ calls. backend.stock calls (releasing key b)) _
        (λ _. reject (order_failure_result (from_grpc e) insufficient_point) (from_grpc e))
        (charged price)
        (reject-Leads _ _ (released price)
          (unpaid price e is_price has_stock pays refl (refl, refl)))
  paid-Booked price (answer p) is_price has_stock pays = leads_attempt {f = stored key} (
      leads_statement _ (refused-Booked price p is_price has_stock pays unavailable)
        (inserted-Booked price p is_price has_stock pays))

  taken-Booked :
      (price : ℤ) (a : Answer (Unit {0}))
      → Price price
      → Stock a
      → Leads (taken backend claims key b price a) stocked Booked
  unfolding taken
  taken-Booked price (fault e) is_price has_stock =
      reject-Leads _ _ stocked (unstocked e has_stock refl (refl, refl))
  taken-Booked price (answer tt) is_price has_stock =
      call-Leads (λ calls. backend.payment calls (charging key b claims price)) _
        (paid backend claims key b price) stocked
        (paid-Booked price (backend.payment stocked.calls (charging key b claims price)) is_price
          has_stock refl)

  priced-Booked :
      (a : Answer Product)
      → backend.product s.calls b.product_id ≡ a
      → Leads (priced backend claims key b a) looked Booked
  unfolding priced
  priced-Booked (fault e) h = reject-Leads _ _ looked (unpriced e h refl (refl, refl))
  priced-Booked (answer product) h =
      call-Leads (λ calls. backend.stock calls (taking key b)) _
        (taken backend claims key b product.price) looked
        (taken-Booked product.price (backend.stock looked.calls (taking key b)) (product, h, refl)
          refl)

  pub order_product-Booked : Leads (order_product backend claims key b) s Booked
  unfolding order_product
  order_product-Booked =
      call-Leads (λ calls. backend.product calls b.product_id) _ (priced backend claims key b) s
        (priced-Booked (backend.product s.calls b.product_id) refl)
