-- ===== src/Bff/Orders/Placed.antt =====
-- How a request for an order ends.
use pingu_coin.Base.{
  String, true, false, Option, none, some, ◌≡◌, refl, ◌==◌, find_first, Option-cases, inl, inr, ◌⊎◌,
  sym,
}
use pingu_coin.Base.Text.{◌is◌, trim_space}
use pingu_coin.Base.Store.{Result, ok, err, Error, unavailable, is_missing, found}
use pingu_coin.Base.Store.Laws.{Leads, leads_pure, leads_if, leads_weaken}
use pingu_coin.Base.Store.Rules.{leads_attempt_found, found→some}
use pingu_coin.Order.Server.{is_method}
use pingu_coin.Bff.Errors.{AppError}
use pingu_coin.Bff.Backend.{Order, Claims, HttpRequest, json, error, Backend, OrderResult, BffStore}
use pingu_coin.Bff.Repository.{has_key, find_by_key}
use pingu_coin.Bff.Orders.{
  CreateOrderBody, to_order_response, reject, with_defaults, order_body, order_decoded,
  order_looked_up, order_keyed, order_as, create_order,
}
use pingu_coin.Bff.Orders.Booked.{
  Leaves, Answered, reject-Leads, replay-Leads, order_product-Booked, Booked,
}

module _ (backend : Backend) (request : HttpRequest CreateOrderBody) (s : BffStore) where
  abbrev pub trimmed : String
  trimmed = trim_space request.key

  -- How a request for an order ends.
  pub data Placed (r : Answered) (t : BffStore) : Type 0 where
    denied : (e : AppError) → r ≡ ok (error e) → Leaves s t → Placed r t
    replayed_order :
        (o : Order)
        → find_first (has_key trimmed) s.orders ≡ some o
        → r ≡ ok (json 200 (to_order_response o))
        → Leaves s t
        → Placed r t
    carried_out :
        (claims : Claims) (body : CreateOrderBody)
        → request.user ≡ some claims
        → request.body ≡ some body
        → (trimmed is "") ≡ false
        → (body.product_id == 0) ≡ false
        → is_method (with_defaults body).payment_method ≡ true
        → find_first (has_key trimmed) s.orders ≡ none
        → Booked backend claims trimmed (with_defaults body) s r t
        → Placed r t

  denied-Placed : (x : OrderResult) (e : AppError) → Leads (reject x e) s Placed
  denied-Placed x e = reject-Leads x e s (denied e refl (refl, refl))

  module _ (claims : Claims) (user : request.user ≡ some claims)
      (keyed : (trimmed is "") ≡ false) where
    decoded-Placed :
        (body : Option CreateOrderBody)
        → request.body ≡ body
        → find_first (has_key trimmed) s.orders ≡ none
        → Leads (order_decoded backend claims trimmed body) s Placed
    unfolding order_decoded order_body
    decoded-Placed none h new = denied-Placed _ _
    decoded-Placed (some body) h new =
        leads_if (body.product_id == 0) (λ _. denied-Placed _ _)
          (λ goods.
            leads_if (is_method (with_defaults body).payment_method)
              (λ known.
                leads_weaken (order_product-Booked backend claims trimmed (with_defaults body) s)
                  (λ r t. carried_out claims body user h keyed goods known new))
              (λ _. leads_pure (denied _ refl (refl, refl))))

    looked_up-Placed :
        (r : Result Order)
        → r ≡ found (find_first (has_key trimmed) s.orders) ⊎ (r ≡ err unavailable)
        → Leads (order_looked_up backend claims trimmed request.body r) s Placed
    unfolding order_looked_up
    looked_up-Placed (ok o) h =
        replay-Leads o s (replayed_order o (found_row o h) refl (refl, refl))
      where
        found_row :
            (o : Order)
            → (ok o ≡ found (find_first (has_key trimmed) s.orders)) ⊎ (ok o ≡ err unavailable)
            → find_first (has_key trimmed) s.orders ≡ some o
        found_row o (inl e) = found→some _ o (sym e)
        found_row o (inr e) = cc
    looked_up-Placed (err e) h =
        leads_if (is_missing e) (λ missing. decoded-Placed request.body refl (no_row e h missing))
          (λ _. denied-Placed _ _)
      where
        no_row :
            (e : Error)
            → (err e ≡ found (find_first (has_key trimmed) s.orders))
              ⊎ (◌≡◌ {A = Result Order} (err e) (err unavailable))
            → is_missing e ≡ true
            → find_first (has_key trimmed) s.orders ≡ none
        no_row e (inl q) missing = elim (Option-cases (find_first (has_key trimmed) s.orders)) [
          | inl n ↦ n
          | inr (o, y) ↦ cc (rw y at q)
        ]
        no_row e (inr q) missing = cc

    keyed-Placed : Leads (order_keyed backend claims trimmed request.body) s Placed
    unfolding order_keyed find_by_key
    keyed-Placed =
        leads_attempt_found (λ x. find_first (has_key trimmed) x.orders)
          (order_looked_up backend claims trimmed request.body)
          (looked_up-Placed (found (find_first (has_key trimmed) s.orders)) (inl refl))
          (looked_up-Placed (err unavailable) (inr refl))

  as-Placed :
      (user : Option Claims)
      → request.user ≡ user
      → Leads (order_as backend user trimmed request.body) s Placed
  unfolding order_as
  as-Placed none h = denied-Placed _ _
  as-Placed (some claims) h =
      leads_if (trimmed is "") (λ _. denied-Placed _ _) (λ keyed. keyed-Placed claims h keyed)

  -- Whatever statements fail and whatever the services answer, `CreateOrder` ends in one of these
  -- ways. It is refused or answered with the stored order of the same key, and nothing is called; or
  -- it asks for the price, then for the stock, then for the payment, each where the one before was
  -- granted, and stores the order where the payment was: an error of a service is answered by its
  -- HTTP status, the stock is given back exactly where the payment fails, and an order is stored
  -- exactly where 201 is answered, under the number and with the status of its payment.
  pub create_order-Placed : Leads (create_order backend request) s Placed
  unfolding create_order
  create_order-Placed = as-Placed request.user refl
