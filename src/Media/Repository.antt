-- ===== src/Media/Repository.antt =====
-- services/media-api/internal/repository/product_inventory_repository.go.
use pingu_coin.Base.{
  ℕ, suc, String, List, [], ◌∷◌, ◌++◌, Bool, true, false, not, ◌&&◌, ◌==◌, if◌then◌else◌, select,
  find_first, exists, update_where,
}
use pingu_coin.Base.Int.{ℤ, pos, add64, ltb_ℤ}
use pingu_coin.Base.Text.{◌is◌}
use pingu_coin.Base.Store.{
  Result, ok, err, is_missing, is_duplicated, duplicated_key, insufficient_stock, M, pure, throw,
  ◌>>=◌, ◌>>◌, statement, query, modify, found, transaction, attempt,
}
use pingu_coin.Media.Model.{ProductInventory, ProductInventoryTransaction, MediaStore}

abbrev pub is_row : ℕ → ProductInventory → Bool
is_row id i = i.id == id

abbrev pub is_row_of : ℕ → ProductInventory → Bool
is_row_of product i = i.product_id == product

abbrev pub is_keyed : String → ProductInventoryTransaction → Bool
is_keyed key t = t.idempotency_key is key

-- `Create`: the unique index on `product_id`; a version of 0 is left to the column's default, 1.
unfoldable pub insert_row : ProductInventory → MediaStore → Result ProductInventory × MediaStore
insert_row i s =
    let row = record i {
      id = s.next_inventory;
      version = if i.version == 0 then 1 else i.version;
    } in
    if exists (is_row_of i.product_id) s.inventories then (err duplicated_key, s) else (
      ok row,
      record s { inventories = s.inventories ++ row ∷ []; next_inventory = suc s.next_inventory },
    )

-- `FindAll`: rows stand in the order of their ids.
unfoldable pub find_rows : M MediaStore (List ProductInventory)
find_rows = query (λ s. ok s.inventories)

-- `FindByID`
unfoldable pub find_row : ℕ → M MediaStore ProductInventory
find_row id = query (λ s. found (find_first (is_row id) s.inventories))

-- `FindByProductID`
unfoldable pub find_row_of : ℕ → M MediaStore ProductInventory
find_row_of product = query (λ s. found (find_first (is_row_of product) s.inventories))

-- `BeforeUpdate`
abbrev pub next_version : ProductInventory → ProductInventory
next_version i = record i { version = suc i.version }

-- `Update`: another row of the same product is refused, and a row that is not there is added.
abbrev pub takes_row : ProductInventory → ProductInventory → Bool
takes_row i x = not (x.id == i.id) && x.product_id == i.product_id

unfoldable pub save_row : ProductInventory → MediaStore → Result ProductInventory × MediaStore
save_row i s =
    let row = next_version i in
    let rows =
      if exists (is_row i.id) s.inventories
      then update_where (is_row i.id) (λ _. row) s.inventories
      else s.inventories ++ row ∷ [] in
    if exists (takes_row i) s.inventories
    then (err duplicated_key, s)
    else (ok row, record s { inventories = rows })

-- `Delete`
unfoldable pub delete_row : ℕ → MediaStore → MediaStore
delete_row id s = record s { inventories = select (λ i. not (is_row id i)) s.inventories }

unfoldable pub find_transaction : String → M MediaStore ProductInventoryTransaction
find_transaction key = query (λ s. found (find_first (is_keyed key) s.transactions))

-- `Update("quantity", …)` of the row that was read: the version is the one behind that row's.
unfoldable pub update_quantity : ProductInventory → ℤ → MediaStore → MediaStore
update_quantity i next s = record s {
  inventories =
      update_where (is_row i.id) (λ x. record x { quantity = next; version = suc i.version })
        s.inventories;
}

abbrev pub new_transaction : ℕ → ℤ → String → String → ℤ → ProductInventoryTransaction
new_transaction product amount reason key next = record {
  id = 0;
  product_id = product;
  amount = amount;
  reason = reason;
  idempotency_key = key;
  quantity_after = next;
}

-- The unique index on `idempotency_key`.
unfoldable pub insert_transaction :
    ProductInventoryTransaction → MediaStore → Result ProductInventoryTransaction × MediaStore
insert_transaction t s =
    let row = record t { id = s.next_transaction } in
    if exists (is_keyed t.idempotency_key) s.transactions then (err duplicated_key, s) else (
      ok row,
      record s {
        transactions = s.transactions ++ row ∷ [];
        next_transaction = suc s.next_transaction;
      },
    )

-- The transaction, and whether it is a replay.
abbrev pub Adjusted : Type 0
Adjusted = ProductInventoryTransaction × Bool

unfoldable pub find_raced : String → M MediaStore Adjusted
unfolding find_transaction ◌>>=◌
find_raced key = do raced ← find_transaction key; pure (raced, true)

unfoldable pub recorded : String → Result ProductInventoryTransaction → M MediaStore Adjusted
unfolding find_raced
recorded key (ok t) = pure (t, false)
recorded key (err e) = if is_duplicated e then find_raced key else throw e

unfoldable pub move_stock : ℕ → ℤ → String → String → ProductInventory → ℤ → M MediaStore Adjusted
unfolding update_quantity insert_transaction recorded ◌>>=◌
move_stock product amount reason key i next = do
  modify (update_quantity i next)
  r ← attempt (statement (insert_transaction (new_transaction product amount reason key next)))
  recorded key r

unfoldable pub move_checked : ℕ → ℤ → String → String → ProductInventory → M MediaStore Adjusted
unfolding move_stock
move_checked product amount reason key i =
    let next = add64 i.quantity amount in
    let move = move_stock product amount reason key i next in
    if ltb_ℤ next (pos 0) then throw insufficient_stock else move

unfoldable pub adjust_new : ℕ → ℤ → String → String → M MediaStore Adjusted
unfolding find_row_of move_checked ◌>>=◌
adjust_new product amount reason key = do
  i ← find_row_of product
  move_checked product amount reason key i

unfoldable pub adjust_known :
    ℕ → ℤ → String → String → Result ProductInventoryTransaction → M MediaStore Adjusted
unfolding adjust_new
adjust_known product amount reason key (ok existing) = pure (existing, true)
adjust_known product amount reason key (err e) =
    if is_missing e then adjust_new product amount reason key else throw e

-- `Adjust`
unfoldable pub adjust_stock : ℕ → ℤ → String → String → M MediaStore Adjusted
unfolding find_transaction adjust_known ◌>>=◌
adjust_stock product amount reason key = do
  existing ← attempt (find_transaction key)
  adjust_known product amount reason key existing

-- `AdjustAtomic`
unfoldable pub adjust_stock_atomic : ℕ → ℤ → String → String → M MediaStore Adjusted
unfolding adjust_stock
adjust_stock_atomic product amount reason key = transaction (adjust_stock product amount reason key)
