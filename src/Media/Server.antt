-- ===== src/Media/Server.antt =====
-- services/media-api/internal/grpcserver/product_inventory_server.go, with `mapFindError` of
-- errors.go.
use pingu_coin.Base.{ℕ, String, List, ◌||◌, Option, none, some, ◌==◌, if◌then◌else◌}
use pingu_coin.Base.Int.{ℤ, pos, ltb_ℤ, eqb_ℤ}
use pingu_coin.Base.Text.{◌is◌, ◌<>◌, trim_space}
use pingu_coin.Base.Store.{
  Result, ok, err, Error, is_short_stock, M, pure, ◌>>=◌, statement, modify, attempt,
}
use pingu_coin.Base.Rpc.{
  invalid_argument, not_found, failed_precondition, internal, Reply, reply, refuse,
}
use pingu_coin.Media.Model.{ProductInventory, MediaStore}
use pingu_coin.Media.Repository.{
  find_rows, find_row, find_row_of, insert_row, save_row, delete_row, Adjusted, adjust_stock_atomic,
}

unfoldable pub find_refused : {A : Type 0} → String → Error → Reply A
find_refused resource Error.record_not_found = refuse not_found (resource <> " not found")
find_refused resource _ = refuse internal "internal server error"

abbrev pub or_refused : {A : Type 0} → Result A → Reply A
or_refused (ok a) = reply a
or_refused (err _) = refuse internal "internal server error"

abbrev pub found_reply : Result ProductInventory → Reply ProductInventory
found_reply (ok i) = reply i
found_reply (err e) = find_refused "product inventory" e

-- `ListProductInventories`
unfoldable pub list_rows : M MediaStore (Reply (List ProductInventory))
unfolding find_rows ◌>>=◌
list_rows = do r ← attempt find_rows; pure (or_refused r)

-- `GetProductInventory`
unfoldable pub get_row : ℕ → M MediaStore (Reply ProductInventory)
unfolding find_row find_refused ◌>>=◌
get_row id = do r ← attempt (find_row id); pure (found_reply r)

-- The checks of a row that is written.
unfoldable pub row_fault : ℕ → ℤ → ℤ → Option String
row_fault product quantity reserved =
    if product == 0
    then some "product_id is required"
    else if ltb_ℤ quantity (pos 0) || ltb_ℤ reserved (pos 0)
    then some "quantity and reserved must not be negative"
    else none

abbrev pub new_row : ℕ → ℤ → ℤ → ProductInventory
new_row product quantity reserved = record {
  id = 0;
  product_id = product;
  quantity = quantity;
  reserved = reserved;
  version = 0;
}

unfoldable pub create_checked : ℕ → ℤ → ℤ → Option String → M MediaStore (Reply ProductInventory)
unfolding insert_row ◌>>=◌
create_checked product quantity reserved (some fault) = pure (refuse invalid_argument fault)
create_checked product quantity reserved none = do
  r ← attempt (statement (insert_row (new_row product quantity reserved)))
  pure (or_refused r)

-- `CreateProductInventory`
unfoldable pub create_inventory : ℕ → ℤ → ℤ → M MediaStore (Reply ProductInventory)
unfolding row_fault create_checked
create_inventory product quantity reserved =
    create_checked product quantity reserved (row_fault product quantity reserved)

unfoldable pub write_row :
    ℕ → ℤ → ℤ → Result ProductInventory → M MediaStore (Reply ProductInventory)
unfolding find_refused save_row ◌>>=◌
write_row product quantity reserved (err e) = pure (find_refused "product inventory" e)
write_row product quantity reserved (ok i) = do
  r ← attempt (
      statement
        (save_row (record i { product_id = product; quantity = quantity; reserved = reserved })))
  pure (or_refused r)

unfoldable pub update_checked :
    ℕ → ℕ → ℤ → ℤ → Option String → M MediaStore (Reply ProductInventory)
unfolding find_row write_row ◌>>=◌
update_checked id product quantity reserved (some fault) = pure (refuse invalid_argument fault)
update_checked id product quantity reserved none = do
  r ← attempt (find_row id)
  write_row product quantity reserved r

-- `UpdateProductInventory`
unfoldable pub update_inventory : ℕ → ℕ → ℤ → ℤ → M MediaStore (Reply ProductInventory)
unfolding row_fault update_checked
update_inventory id product quantity reserved =
    update_checked id product quantity reserved (row_fault product quantity reserved)

-- `DeleteProductInventory`
unfoldable pub remove_inventory : ℕ → M MediaStore (Reply (Unit {0}))
unfolding delete_row ◌>>=◌
remove_inventory id = do r ← attempt (modify (delete_row id)); pure (or_refused r)

unfoldable pub adjust_fault : ℕ → ℤ → String → Option String
adjust_fault product amount key =
    if product == 0
    then some "product_id is required"
    else if eqb_ℤ amount (pos 0)
    then some "amount must not be zero"
    else if key is ""
    then some "idempotency_key is required"
    else none

-- The row that is answered is read behind the transaction.
unfoldable pub read_adjusted : ℕ → M MediaStore (Reply ProductInventory)
unfolding find_row_of ◌>>=◌
read_adjusted product = do r ← attempt (find_row_of product); pure (or_refused r)

unfoldable pub adjusted_reply : ℕ → Result Adjusted → M MediaStore (Reply ProductInventory)
unfolding read_adjusted
adjusted_reply product (ok _) = read_adjusted product
adjusted_reply product (err e) =
    if is_short_stock e
    then pure (refuse failed_precondition "insufficient stock")
    else pure (refuse internal "internal server error")

unfoldable pub adjust_checked :
    ℕ → ℤ → String → String → Option String → M MediaStore (Reply ProductInventory)
unfolding adjust_stock_atomic adjusted_reply ◌>>=◌
adjust_checked product amount reason key (some fault) = pure (refuse invalid_argument fault)
adjust_checked product amount reason key none = do
  r ← attempt (adjust_stock_atomic product amount reason key)
  adjusted_reply product r

-- `adjustProductInventory`
unfoldable pub adjust_inventory : ℕ → ℤ → String → String → M MediaStore (Reply ProductInventory)
unfolding trim_space adjust_fault adjust_checked
adjust_inventory product amount reason idempotency_key =
    let key = trim_space idempotency_key in
    adjust_checked product amount reason key (adjust_fault product amount key)
