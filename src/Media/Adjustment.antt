-- ===== src/Media/Adjustment.antt =====
-- services/media-api/internal/grpcserver/product_inventory_server.go: what an adjustment does to the
-- stock of a product where no statement fails.
use pingu_coin.Base.{
  ℕ, suc, String, [], ◌∷◌, ◌++◌, false, some, none, ◌≡◌, refl, ◌==◌, find_first, update_where,
  arith,
}
use pingu_coin.Base.Rows.{find_first-missing, find_first-update_where}
use pingu_coin.Base.Int.{ℤ, pos, add64, ltb_ℤ, eqb_ℤ}
use pingu_coin.Base.Text.{◌is◌, trim_space}
use pingu_coin.Base.Store.{ok, calm, ◌>>=◌, statement, transaction}
use pingu_coin.Base.Rpc.{reply}
use pingu_coin.Media.Model.{ProductInventory, ProductInventoryTransaction, MediaStore}
use pingu_coin.Media.Repository.{
  is_row, is_row_of, is_keyed, find_row_of, find_transaction, update_quantity, insert_transaction,
  new_transaction, recorded, move_stock, move_checked, adjust_new, adjust_known, adjust_stock,
  adjust_stock_atomic,
}
use pingu_coin.Media.Server.{
  adjust_fault, read_adjusted, adjusted_reply, adjust_checked, adjust_inventory,
}

module _ (product : ℕ) (amount : ℤ) (reason idempotency_key : String) (s : MediaStore)
    (i : ProductInventory) where
  abbrev key : String
  key = trim_space idempotency_key

  abbrev pub next : ℤ
  next = add64 i.quantity amount

  -- The row of the product, with the new stock.
  abbrev pub moved_row : ProductInventory
  moved_row = record i { quantity = next; version = suc i.version }

  -- The tables behind the adjustment.
  abbrev pub moved : MediaStore
  moved = record s {
    inventories =
        update_where (is_row i.id) (λ x. record x { quantity = next; version = suc i.version })
          s.inventories;
    transactions =
        s.transactions
        ++ record (new_transaction product amount reason key next) { id = s.next_transaction } ∷ [];
    next_transaction = suc s.next_transaction;
  }

  module _ (goods : (product == 0) ≡ false) (some_pieces : eqb_ℤ amount (pos 0) ≡ false)
      (keyed : (key is "") ≡ false)
      (row : find_first (is_row_of product) s.inventories ≡ some i) where
    pub moved-row : find_first (is_row_of product) moved.inventories ≡ some moved_row
    moved-row =
        rw
          (
            find_first-update_where (is_row_of product) (is_row i.id)
                (λ x. record x { quantity = next; version = suc i.version }) (λ _. refl)
                s.inventories,
            row,
          )
          (ground arith)

    -- With a new key the stock moves, and the row that is answered has the new stock.
    pub adjust_inventory-moves :
        find_first (is_keyed key) s.transactions ≡ none
        → ltb_ℤ next (pos 0) ≡ false
        → adjust_inventory product amount reason idempotency_key (calm s)
          ≡ (ok (reply moved_row), calm moved)
    unfolding adjust_inventory adjust_fault adjust_checked adjust_stock_atomic transaction
        adjust_stock find_transaction adjust_known adjust_new find_row_of move_checked move_stock
        update_quantity insert_transaction recorded adjusted_reply read_adjusted ◌>>=◌ statement
    adjust_inventory-moves new covered =
        rw
          (
            goods,
            some_pieces,
            keyed,
            new,
            row,
            covered,
            find_first-missing (is_keyed key) s.transactions new,
            moved-row,
          )
          refl

    -- With a key that is known nothing moves, and the row is answered.
    pub adjust_inventory-replays :
        (t : ProductInventoryTransaction)
        → find_first (is_keyed key) s.transactions ≡ some t
        → adjust_inventory product amount reason idempotency_key (calm s) ≡ (ok (reply i), calm s)
    unfolding adjust_inventory adjust_fault adjust_checked adjust_stock_atomic transaction
        adjust_stock find_transaction adjust_known adjusted_reply read_adjusted find_row_of ◌>>=◌
        statement
    adjust_inventory-replays t known = rw (goods, some_pieces, keyed, known, row) refl
