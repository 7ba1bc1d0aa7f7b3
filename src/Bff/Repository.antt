-- ===== src/Bff/Repository.antt =====
-- services/bff/internal/repository/order_repository.go.
use pingu_coin.Base.{
  ℕ, suc, String, List, [], ◌∷◌, ◌++◌, Bool, ◌&&◌, ◌==◌, if◌then◌else◌, select, find_first, exists,
  reverse,
}
use pingu_coin.Base.Text.{◌is◌}
use pingu_coin.Base.Store.{Result, ok, err, duplicated_key, M, query, found}
use pingu_coin.Bff.Backend.{Order, BffStore}

abbrev pub has_key : String → Order → Bool
has_key key o = o.idempotency_key is key

abbrev pub is_order : ℕ → Order → Bool
is_order id o = o.id == id

abbrev pub is_bought_by : ℕ → Order → Bool
is_bought_by user o = o.user_id == user

-- `Create`: the unique index on `idempotency_key`.
unfoldable pub insert_order : Order → BffStore → Result Order × BffStore
insert_order o s =
    let row = record o { id = s.next_order } in
    if exists (has_key o.idempotency_key) s.orders
    then (err duplicated_key, s)
    else (ok row, record s { orders = s.orders ++ row ∷ []; next_order = suc s.next_order })

-- `FindByID`
unfoldable pub find_order : ℕ → M BffStore Order
find_order id = query (λ s. found (find_first (is_order id) s.orders))

-- `FindByIdempotencyKey`
unfoldable pub find_by_key : String → M BffStore Order
find_by_key key = query (λ s. found (find_first (has_key key) s.orders))

-- `FindByUser`: rows stand in the order of their ids.
unfoldable pub find_by_user : ℕ → M BffStore (List Order)
find_by_user user = query (λ s. ok (reverse (select (is_bought_by user) s.orders)))

abbrev pub is_paid_for : ℕ → ℕ → Order → Bool
is_paid_for user product o = o.user_id == user && o.product_id == product && (o.status is "paid")

-- `HasPaidOrder`
unfoldable pub has_paid_order : ℕ → ℕ → M BffStore Bool
has_paid_order user product = query (λ s. ok (exists (is_paid_for user product) s.orders))
