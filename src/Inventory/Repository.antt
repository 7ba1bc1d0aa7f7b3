-- ===== src/Inventory/Repository.antt =====
-- services/inventory-api/internal/repository/inventory.go: the stock of products, and its changes.
use pingu_coin.Base.{
  ℕ, suc, String, List, [], ◌∷◌, ◌++◌, Bool, true, false, not, ◌&&◌, ◌==◌, if◌then◌else◌, select,
  find_first, exists, update_where,
}
use pingu_coin.Base.Int.{ℤ, pos, add64, ltb_ℤ}
use pingu_coin.Base.Text.{◌is◌}
use pingu_coin.Base.Store.{
  Result, ok, err, Error, duplicated_key, insufficient_stock, M, pure, throw, ◌>>=◌, ◌>>◌,
  statement, query, modify, found, transaction, attempt,
}
use pingu_coin.Inventory.Model.{default_digital_stock, Inventory, Transaction, InventoryStore}

abbrev pub is_inventory : ℕ → Inventory → Bool
is_inventory id i = i.id == id

abbrev pub is_stock_of : ℕ → Inventory → Bool
is_stock_of product i = i.product_id == product

abbrev pub has_entry_key : String → Transaction → Bool
has_entry_key key t = t.idempotency_key is key

-- Rows stand in the order of their ids.
unfoldable pub find_all : M InventoryStore (List Inventory)
find_all = query (λ s. ok s.inventories)

unfoldable pub find_by_id : ℕ → M InventoryStore Inventory
find_by_id id = query (λ s. found (find_first (is_inventory id) s.inventories))

unfoldable pub find_by_product : ℕ → M InventoryStore Inventory
find_by_product product = query (λ s. found (find_first (is_stock_of product) s.inventories))

unfoldable pub find_entry : String → M InventoryStore Transaction
find_entry key = query (λ s. found (find_first (has_entry_key key) s.entries))

-- The row as it is inserted: a version of 0 is left to the column's default, 1.
abbrev pub numbered : ℕ → Inventory → Inventory
numbered id i = record i { id = id; version = if i.version == 0 then 1 else i.version }

-- `Create`: the unique index on `product_id`.
unfoldable pub insert_inventory : Inventory → InventoryStore → Result Inventory × InventoryStore
insert_inventory i s =
    let row = numbered s.next_inventory i in
    if exists (is_stock_of i.product_id) s.inventories then (err duplicated_key, s) else (
      ok row,
      record s { inventories = s.inventories ++ row ∷ []; next_inventory = suc s.next_inventory },
    )

-- `Save`: another row of the same product is refused.
abbrev pub takes_product : Inventory → Inventory → Bool
takes_product i x = not (x.id == i.id) && x.product_id == i.product_id

unfoldable pub save_inventory : Inventory → InventoryStore → Result Inventory × InventoryStore
save_inventory i s =
    let rows =
      if exists (is_inventory i.id) s.inventories
      then update_where (is_inventory i.id) (λ _. i) s.inventories
      else s.inventories ++ i ∷ [] in
    if exists (takes_product i) s.inventories
    then (err duplicated_key, s)
    else (ok i, record s { inventories = rows })

unfoldable pub delete_inventory : ℕ → InventoryStore → InventoryStore
delete_inventory id s = record s {
  inventories = select (λ i. not (is_inventory id i)) s.inventories;
}

-- `ON CONFLICT DO NOTHING`: a row that is not inserted keeps the id 0.
unfoldable pub insert_default : ℕ → InventoryStore → Result Inventory × InventoryStore
insert_default product s =
    let fresh : Inventory = record {
      id = 0;
      product_id = product;
      quantity = default_digital_stock;
      reserved = pos 0;
      version = 0;
    } in
    let row = numbered s.next_inventory fresh in
    if exists (is_stock_of product) s.inventories then (ok fresh, s) else (
      ok row,
      record s { inventories = s.inventories ++ row ∷ []; next_inventory = suc s.next_inventory },
    )

-- `quantity` and `version = version + 1` of the row with the id.
unfoldable pub set_quantity : ℕ → ℤ → InventoryStore → InventoryStore
set_quantity id next s = record s {
  inventories =
      update_where (is_inventory id) (λ i. record i { quantity = next; version = suc i.version })
        s.inventories;
}

-- The unique index on `idempotency_key`.
unfoldable pub insert_entry :
    ℕ → ℤ → String → String → ℤ → InventoryStore → Result Transaction × InventoryStore
insert_entry product amount reason key next s =
    let row : Transaction = record {
      id = s.next_entry;
      product_id = product;
      amount = amount;
      reason = reason;
      idempotency_key = key;
      quantity_after = next;
    } in
    if exists (has_entry_key key) s.entries
    then (err duplicated_key, s)
    else (ok row, record s { entries = s.entries ++ row ∷ []; next_entry = suc s.next_entry })

unfoldable pub relock : ℕ → Inventory → M InventoryStore Inventory
unfolding find_by_product
relock product i = if i.id == 0 then find_by_product product else pure i

-- The row of the product, or a new one with the default stock.
unfoldable pub open_stock : ℕ → Result Inventory → M InventoryStore Inventory
unfolding insert_default relock ◌>>=◌
open_stock product (ok i) = pure i
open_stock product (err Error.record_not_found) = do
  i ← statement (insert_default product)
  relock product i
open_stock product (err e) = throw e

unfoldable pub write_stock :
    ℕ → ℤ → String → String → Inventory → ℤ → M InventoryStore (Inventory × Bool)
unfolding set_quantity insert_entry ◌>>=◌
write_stock product amount reason key i next = do
  modify (set_quantity i.id next)
  statement (insert_entry product amount reason key next)
  pure (record i { quantity = next; version = suc i.version }, false)

unfoldable pub change_stock :
    ℕ → ℤ → String → String → Inventory → M InventoryStore (Inventory × Bool)
unfolding write_stock
change_stock product amount reason key i =
    let next = add64 i.quantity amount in
    if ltb_ℤ next (pos 0)
    then throw insufficient_stock
    else write_stock product amount reason key i next

-- The transaction once it is known whether the key has an entry.
unfoldable pub adjust_for :
    ℕ → ℤ → String → String → Result Transaction → M InventoryStore (Inventory × Bool)
unfolding find_by_product open_stock change_stock ◌>>=◌
adjust_for product amount reason key (ok _) = do row ← find_by_product product; pure (row, true)
adjust_for product amount reason key (err Error.record_not_found) = do
  looked_up ← attempt (find_by_product product)
  i ← open_stock product looked_up
  change_stock product amount reason key i
adjust_for product amount reason key (err e) = throw e

-- `AdjustContext`; the answer is the row, and whether the key had been used.
unfoldable pub adjust_context : ℕ → ℤ → String → String → M InventoryStore (Inventory × Bool)
unfolding find_entry adjust_for ◌>>=◌
adjust_context product amount reason key =
    transaction (do event ← attempt (find_entry key); adjust_for product amount reason key event)
