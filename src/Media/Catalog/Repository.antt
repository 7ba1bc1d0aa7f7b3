-- ===== src/Media/Catalog/Repository.antt =====
-- services/media-api/internal/repository: products, details and assets, with the hooks of
-- internal/model/product.go. A row that is saved and not there is added.
use pingu_coin.Base.{
  ℕ, suc, String, List, [], ◌∷◌, ◌++◌, Bool, not, ◌&&◌, ◌||◌, ◌==◌, if◌then◌else◌, select,
  find_first, exists, update_where, sort_by, true, false, ltb,
}
use pingu_coin.Base.Int.{ltb_ℤ}
use pingu_coin.Base.Text.{◌is◌}
use pingu_coin.Base.Store.{
  Result, ok, err, duplicated_key, M, pure, ◌>>=◌, ◌>>◌, statement, query, modify, found,
  transaction,
}
use pingu_coin.Media.Catalog.Model.{
  Product, ProductDetail, ProductAsset, ProductAssetPurpose, CatalogStore,
}

-- A product that is not deleted.
abbrev pub is_product : ℕ → Product → Bool
is_product id p = p.id == id && not p.deleted

abbrev pub has_product_id : ℕ → Product → Bool
has_product_id id p = p.id == id

-- `Create`: a status or a version that is left out is the column's default.
unfoldable pub insert_product : Product → CatalogStore → Result Product × CatalogStore
insert_product p s =
    let row = record p {
      id = s.next_product;
      status = if p.status is "" then "draft" else p.status;
      version = if p.version == 0 then 1 else p.version;
    } in
    (ok row, record s { products = s.products ++ row ∷ []; next_product = suc s.next_product })

abbrev pub is_sold_by : ℕ → Product → Bool
is_sold_by user p = not p.deleted && (user == 0 || p.user_id == user)

-- `FindAll`: rows stand in the order of their ids.
unfoldable pub find_products : ℕ → M CatalogStore (List Product)
find_products user = query (λ s. ok (select (is_sold_by user) s.products))

-- `FindByID`
unfoldable pub find_product : ℕ → M CatalogStore Product
find_product id = query (λ s. found (find_first (is_product id) s.products))

-- `BeforeUpdate`
abbrev pub next_version : Product → Product
next_version p = record p { version = suc p.version }

-- `Update`
unfoldable pub save_product : Product → CatalogStore → CatalogStore
save_product p s = record s {
  products =
      if exists (has_product_id p.id) s.products
      then update_where (has_product_id p.id) (λ _. next_version p) s.products
      else s.products ++ next_version p ∷ [];
}

-- `Delete`
unfoldable pub delete_product : ℕ → CatalogStore → CatalogStore
delete_product id s = record s {
  products = update_where (is_product id) (λ p. record p { deleted = true }) s.products;
}

-- product_detail_repository.go: `Create`.
unfoldable pub insert_detail : ProductDetail → CatalogStore → Result ProductDetail × CatalogStore
insert_detail d s =
    let row = record d { id = s.next_detail } in
    (ok row, record s { details = s.details ++ row ∷ []; next_detail = suc s.next_detail })

abbrev pub is_detail_of : ℕ → ProductDetail → Bool
is_detail_of product d = product == 0 || d.product_id == product

abbrev pub detail_before : ProductDetail → ProductDetail → Bool
detail_before a b = ltb_ℤ a.sort_order b.sort_order

-- `FindAll`: by order, and by id where the order is the same.
unfoldable pub find_details : ℕ → M CatalogStore (List ProductDetail)
find_details product =
    query (λ s. ok (sort_by detail_before (select (is_detail_of product) s.details)))

abbrev pub is_detail : ℕ → ProductDetail → Bool
is_detail id d = d.id == id

-- `FindByID`
unfoldable pub find_detail : ℕ → M CatalogStore ProductDetail
find_detail id = query (λ s. found (find_first (is_detail id) s.details))

-- `Update`
unfoldable pub save_detail : ProductDetail → CatalogStore → CatalogStore
save_detail d s = record s {
  details =
      if exists (is_detail d.id) s.details
      then update_where (is_detail d.id) (λ _. d) s.details
      else s.details ++ d ∷ [];
}

-- `Delete`
unfoldable pub delete_detail : ℕ → CatalogStore → CatalogStore
delete_detail id s = record s { details = select (λ d. not (is_detail id d)) s.details }

abbrev pub shows_image : ℕ → String → ProductDetail → Bool
shows_image product url d = d.product_id == product && (d.image_url is url)

-- `DeleteByImageURL`
unfoldable pub delete_by_image_url : ℕ → String → CatalogStore → CatalogStore
delete_by_image_url product url s = record s {
  details = select (λ d. not (shows_image product url d)) s.details;
}

-- product_asset_repository.go: `FindPurposeByID`.
abbrev pub is_purpose : ℕ → ProductAssetPurpose → Bool
is_purpose id p = p.id == id

unfoldable pub find_purpose : ℕ → M CatalogStore ProductAssetPurpose
find_purpose id = query (λ s. found (find_first (is_purpose id) s.purposes))

abbrev pub is_asset_of : ℕ → ℕ → ProductAsset → Bool
is_asset_of product purpose a = a.product_id == product && (purpose == 0 || a.purpose_id == purpose)

abbrev pub asset_before : ProductAsset → ProductAsset → Bool
asset_before a b =
    ltb a.purpose_id b.purpose_id
    || (a.purpose_id == b.purpose_id && ltb_ℤ a.sort_order b.sort_order)

-- `FindAll`
unfoldable pub find_assets : ℕ → ℕ → M CatalogStore (List ProductAsset)
find_assets product purpose =
    query (λ s. ok (sort_by asset_before (select (is_asset_of product purpose) s.assets)))

abbrev pub is_asset : ℕ → ProductAsset → Bool
is_asset id a = a.id == id

-- `FindByID`
unfoldable pub find_asset : ℕ → M CatalogStore ProductAsset
find_asset id = query (λ s. found (find_first (is_asset id) s.assets))

abbrev pub is_stored_at : String → ProductAsset → Bool
is_stored_at url a = a.storage_url is url

abbrev pub shares_place : ProductAsset → ProductAsset → Bool
shares_place a x = x.product_id == a.product_id && x.purpose_id == a.purpose_id

-- The other assets of the product and the purpose are primary no more.
unfoldable pub demote : ProductAsset → CatalogStore → CatalogStore
demote a s = record s {
  assets = update_where (shares_place a) (λ x. record x { is_primary = false }) s.assets;
}

-- The unique index on `storage_url`.
unfoldable pub insert_asset : ProductAsset → CatalogStore → Result ProductAsset × CatalogStore
insert_asset a s =
    let row = record a { id = s.next_asset } in
    if exists (is_stored_at a.storage_url) s.assets
    then (err duplicated_key, s)
    else (ok row, record s { assets = s.assets ++ row ∷ []; next_asset = suc s.next_asset })

unfoldable pub demote_first : ProductAsset → M CatalogStore (Unit {0})
unfolding demote
demote_first a = if a.is_primary then modify (demote a) else pure tt

-- `Create`
unfoldable pub create_asset : ProductAsset → M CatalogStore ProductAsset
unfolding demote_first insert_asset ◌>>=◌
create_asset a = transaction (do demote_first a; statement (insert_asset a))

-- `Delete`
unfoldable pub delete_asset : ℕ → CatalogStore → CatalogStore
delete_asset id s = record s { assets = select (λ a. not (is_asset id a)) s.assets }
