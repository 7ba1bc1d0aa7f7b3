-- ===== src/Bff/Shop/Taken.antt =====
-- The stock of media-api under an order: what is taken, what is given back, and what the same key
-- takes a second time.
use pingu_coin.Base.{
  ℕ, String, false, some, none, ◌≡◌, refl, ◌-◌, ◌^◌, ◌<◌, ◌≤◌, ◌==◌, find_first,
  find_first-append_none, find_first-append_some, arith,
}
use pingu_coin.Base.Int.{pos, negsuc, add64, neg32, wrap32, eqb_ℤ, ◌+ℤ◌, ◌-ℤ◌}
use pingu_coin.Base.Text.{◌is◌, ◌<>◌, trim_space, is_refl}
use pingu_coin.Base.Store.{ok, calm}
use pingu_coin.Base.Rpc.{reply}
use pingu_coin.Media.Model.{ProductInventory, ProductInventoryTransaction, MediaStore}
use pingu_coin.Media.Repository.{is_row_of, is_keyed, new_transaction}
use pingu_coin.Media.Adjustment.{
  moved_row, moved, moved-row, adjust_inventory-moves, adjust_inventory-replays,
}
use pingu_coin.Bff.Orders.{CreateOrderBody, taking, releasing}
use pingu_coin.Bff.Shop.{adjust}

-- What is taken and given back of n pieces, and what that does to a stock of h.
int32_taken : (n : ℕ) → 0 < n → n < 2 ^ 31 → neg32 (wrap32 (pos n)) ≡ negsuc (n - 1)
unfolding neg32 wrap32 ◌-ℤ◌
int32_taken n positive small = ground arith

int32_given : (n : ℕ) → n < 2 ^ 31 → wrap32 (pos n) ≡ pos n
unfolding wrap32
int32_given n small = ground arith

less_taken : (h n : ℕ) → 0 < n → n ≤ h → h < 2 ^ 63 → add64 (pos h) (negsuc (n - 1)) ≡ pos (h - n)
unfolding add64 ◌+ℤ◌
less_taken h n positive fits small = ground arith

given_back : (h n : ℕ) → n ≤ h → h < 2 ^ 63 → add64 (pos (h - n)) (pos n) ≡ pos h
unfolding add64 ◌+ℤ◌
given_back h n fits small = ground arith

abbrev pub release_key : String → String
release_key key = trim_space (key <> ":release")

-- A stock `m` that has h of the product, of which the order wants n, and that knows neither key.
pub record Offered (m : MediaStore) (key : String) (b : CreateOrderBody) (i : ProductInventory)
    (h n : ℕ) : Type 0 where
  pub goods : (b.product_id == 0) ≡ false
  pub pieces : b.quantity ≡ pos n
  pub positive : 0 < n
  pub small : n < 2 ^ 31
  pub fits : n ≤ h
  pub large : h < 2 ^ 63
  pub shelf : find_first (is_row_of b.product_id) m.inventories ≡ some i
  pub held : i.quantity ≡ pos h
  pub keyed : (trim_space key is "") ≡ false
  pub unused : find_first (is_keyed (trim_space key)) m.transactions ≡ none
  pub release_keyed : (release_key key is "") ≡ false
  pub release_unused : find_first (is_keyed (release_key key)) m.transactions ≡ none
  pub apart : (trim_space key is release_key key) ≡ false

module _ (m : MediaStore) (key : String) (b : CreateOrderBody) (i : ProductInventory) where
  abbrev pub taken_row : ProductInventory
  taken_row = moved_row b.product_id (taking key b).amount "order" key m i

  abbrev pub taken_stock : MediaStore
  taken_stock = moved b.product_id (taking key b).amount "order" key m i

  abbrev pub given_row : ProductInventory
  given_row =
      moved_row b.product_id (wrap32 b.quantity) "order payment failed" (key <> ":release")
        taken_stock taken_row

  abbrev pub given_stock : MediaStore
  given_stock =
      moved b.product_id (wrap32 b.quantity) "order payment failed" (key <> ":release") taken_stock
        taken_row

  module _ (h n : ℕ) (offer : Offered m key b i h n) where
    pub taken_left : taken_row.quantity ≡ pos (h - n)
    taken_left =
        rw (offer.held, offer.pieces, int32_taken n offer.positive offer.small)
          (less_taken h n offer.positive offer.fits offer.large)

    pub given_all : given_row.quantity ≡ pos h
    given_all =
        rw (taken_left, offer.pieces, int32_given n offer.small)
          (given_back h n offer.fits offer.large)

    taken_some : eqb_ℤ (taking key b).amount (pos 0) ≡ false
    taken_some = rw (offer.pieces, int32_taken n offer.positive offer.small) (ground arith)

    given_some : eqb_ℤ (wrap32 b.quantity) (pos 0) ≡ false
    given_some =
        let positive = offer.positive in rw (offer.pieces, int32_given n offer.small) (ground arith)

    pub takes : adjust (taking key b) m ≡ (ok (reply taken_row), calm taken_stock)
    takes =
        adjust_inventory-moves b.product_id (taking key b).amount "order" key m i offer.goods
          taken_some offer.keyed offer.shelf offer.unused (rw taken_left (ground arith))

    pub taken-shelf : find_first (is_row_of b.product_id) taken_stock.inventories ≡ some taken_row
    taken-shelf =
        moved-row b.product_id (taking key b).amount "order" key m i offer.goods taken_some
          offer.keyed offer.shelf

    release_new : find_first (is_keyed (release_key key)) taken_stock.transactions ≡ none
    release_new =
        rw
          (
            find_first-append_none (is_keyed (release_key key)) m.transactions _
                offer.release_unused,
            offer.apart,
          )
          refl

    pub gives : adjust (releasing key b) taken_stock ≡ (ok (reply given_row), calm given_stock)
    gives =
        adjust_inventory-moves b.product_id (wrap32 b.quantity) "order payment failed"
          (key <> ":release") taken_stock taken_row offer.goods given_some offer.release_keyed
          taken-shelf release_new (rw given_all (ground arith))

    pub given-shelf : find_first (is_row_of b.product_id) given_stock.inventories ≡ some given_row
    given-shelf =
        moved-row b.product_id (wrap32 b.quantity) "order payment failed" (key <> ":release")
          taken_stock taken_row offer.goods given_some offer.release_keyed taken-shelf

    -- The row that the first request has added under the key.
    abbrev order_transaction : ProductInventoryTransaction
    order_transaction =
        record (new_transaction b.product_id (taking key b).amount "order" (trim_space key)
          taken_row.quantity) { id = m.next_transaction }

    key_known :
        find_first (is_keyed (trim_space key)) given_stock.transactions ≡ some order_transaction
    key_known =
        find_first-append_some (is_keyed (trim_space key)) taken_stock.transactions _
          order_transaction
          (rw
            (
              find_first-append_none (is_keyed (trim_space key)) m.transactions _ offer.unused,
              is_refl (trim_space key),
            )
            refl)

    pub takes_nothing : adjust (taking key b) given_stock ≡ (ok (reply given_row), calm given_stock)
    takes_nothing =
        adjust_inventory-replays b.product_id (taking key b).amount "order" key given_stock
          given_row offer.goods taken_some offer.keyed given-shelf order_transaction key_known
