-- ===== src/Inventory/Server.antt =====
-- services/inventory-api/internal/grpcserver/server.go: the handlers of `ProductInventoryService`.
use pingu_coin.Base.{ℕ, String, List, Bool, ◌||◌, ◌==◌, if◌then◌else◌}
use pingu_coin.Base.Int.{ℤ, pos, ltb_ℤ, eqb_ℤ}
use pingu_coin.Base.Text.{◌is◌, trim_space}
use pingu_coin.Base.Store.{Result, ok, err, Error, M, pure, ◌>>=◌, statement, modify, attempt}
use pingu_coin.Base.Rpc.{
  invalid_argument, not_found, failed_precondition, internal, Reply, reply, refuse,
}
use pingu_coin.Inventory.Model.{Inventory, InventoryStore}
use pingu_coin.Inventory.Repository.{
  find_all, find_by_id, insert_inventory, save_inventory, delete_inventory, adjust_context,
}

-- `mapError`
unfoldable pub map_error : {A : Type 0} → Error → Reply A
map_error Error.record_not_found = refuse not_found "inventory not found"
map_error _ = refuse internal "inventory operation failed"

abbrev pub answer : {A : Type 0} → Result A → Reply A
answer (ok a) = reply a
answer (err e) = map_error e

abbrev pub listed : {A : Type 0} → Result A → Reply A
listed (ok a) = reply a
listed (err _) = refuse internal "inventory lookup failed"

unfoldable pub list_product_inventories : M InventoryStore (Reply (List Inventory))
unfolding find_all ◌>>=◌
list_product_inventories = do r ← attempt find_all; pure (listed r)

unfoldable pub get_product_inventory : ℕ → M InventoryStore (Reply Inventory)
unfolding find_by_id map_error ◌>>=◌
get_product_inventory id = do r ← attempt (find_by_id id); pure (answer r)

unfoldable pub create_row : ℕ → ℤ → ℤ → M InventoryStore (Reply Inventory)
unfolding insert_inventory map_error ◌>>=◌
create_row product quantity reserved = do
  r ← attempt (
      statement (
        insert_inventory (record {
          id = 0;
          product_id = product;
          quantity = quantity;
          reserved = reserved;
          version = 0;
        })))
  pure (answer r)

unfoldable pub create_product_inventory : ℕ → ℤ → ℤ → M InventoryStore (Reply Inventory)
unfolding create_row
create_product_inventory product quantity reserved =
    if product == 0 || ltb_ℤ quantity (pos 0) || ltb_ℤ reserved (pos 0)
    then pure (refuse invalid_argument "invalid inventory")
    else create_row product quantity reserved

unfoldable pub update_row : ℕ → ℤ → ℤ → Result Inventory → M InventoryStore (Reply Inventory)
unfolding save_inventory map_error ◌>>=◌
update_row product quantity reserved (err e) = pure (map_error e)
update_row product quantity reserved (ok row) = do
  r ← attempt (
      statement (
        save_inventory
          (record row { product_id = product; quantity = quantity; reserved = reserved })))
  pure (answer r)

unfoldable pub update_found : ℕ → ℕ → ℤ → ℤ → M InventoryStore (Reply Inventory)
unfolding find_by_id update_row ◌>>=◌
update_found id product quantity reserved = do
  r ← attempt (find_by_id id)
  update_row product quantity reserved r

unfoldable pub update_product_inventory : ℕ → ℕ → ℤ → ℤ → M InventoryStore (Reply Inventory)
unfolding update_found
update_product_inventory id product quantity reserved =
    if ltb_ℤ quantity (pos 0) || ltb_ℤ reserved (pos 0)
    then pure (refuse invalid_argument "invalid inventory")
    else update_found id product quantity reserved

unfoldable pub delete_product_inventory : ℕ → M InventoryStore (Reply (Unit {0}))
unfolding delete_inventory map_error ◌>>=◌
delete_product_inventory id = do r ← attempt (modify (delete_inventory id)); pure (answer r)

unfoldable pub adjusted : Result (Inventory × Bool) → Reply Inventory
unfolding map_error
adjusted (ok (row, _)) = reply row
adjusted (err Error.insufficient_stock) = refuse failed_precondition "insufficient stock"
adjusted (err e) = map_error e

unfoldable pub adjust_row : ℕ → ℤ → String → String → M InventoryStore (Reply Inventory)
unfolding adjust_context adjusted ◌>>=◌
adjust_row product amount reason key = do
  r ← attempt (adjust_context product amount reason key)
  pure (adjusted r)

unfoldable pub adjust_product_inventory :
    ℕ → ℤ → String → String → M InventoryStore (Reply Inventory)
unfolding adjust_row
adjust_product_inventory product amount reason idempotency_key =
    let key = trim_space idempotency_key in
    if product == 0 || eqb_ℤ amount (pos 0) || (key is "")
    then pure (refuse invalid_argument "product_id, amount and idempotency_key are required")
    else adjust_row product amount reason key
