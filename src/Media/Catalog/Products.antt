-- ===== src/Media/Catalog/Products.antt =====
-- services/media-api/internal/grpcserver/product_server.go: products.
use pingu_coin.Base.{ℕ, String, List, false, Option, none, some, ◌==◌, if◌then◌else◌}
use pingu_coin.Base.Int.{ℤ, pos}
use pingu_coin.Base.Text.{◌is◌, trim_space}
use pingu_coin.Base.Store.{Result, ok, err, M, pure, ◌>>=◌, statement, modify, attempt}
use pingu_coin.Base.Rpc.{invalid_argument, permission_denied, internal, Reply, reply, refuse}
use pingu_coin.Media.Server.{find_refused, or_refused}
use pingu_coin.Media.Catalog.Model.{Product, CatalogStore}
use pingu_coin.Media.Catalog.Storage.{BlobStorage, ensure_containers}
use pingu_coin.Media.Catalog.Repository.{
  insert_product, find_products, find_product, save_product, delete_product, next_version,
}

-- A handler that answers with an `A`.
abbrev pub Handler : Type 0 → Type 0
Handler A = M CatalogStore (Reply A)

abbrev pub invalid : {A : Type 0} → String → Handler A
invalid text = pure (refuse invalid_argument text)

abbrev pub broken : {A : Type 0} → Handler A
broken = pure (refuse internal "internal server error")

module _ {A B : Type 0} where
  -- `if err != nil { return nil, apperr.Internal(err) }`
  unfoldable pub with_result : Result A → (A → Handler B) → Handler B
  with_result (ok a) next = next a
  with_result (err _) next = broken

  -- `if err != nil { return nil, mapFindError(resource, err) }`
  unfoldable pub with_found : String → Result A → (A → Handler B) → Handler B
  unfolding find_refused
  with_found resource (ok a) next = next a
  with_found resource (err e) next = pure (find_refused resource e)

-- `CreateProductRequest` and `UpdateProductRequest`
pub record ProductRequest : Type 0 where
  pub id : ℕ
  pub user_id : ℕ
  pub category_id : ℕ
  pub name : String
  pub description : String
  pub image_url : String
  pub file_url : String
  pub price : ℤ
  pub status : String

-- `validateProductInput`
unfoldable pub product_fault : ProductRequest → Option String
unfolding trim_space
product_fault r =
    if trim_space r.name is ""
    then some "name is required"
    else if r.user_id == 0
    then some "user_id is required"
    else if r.category_id == 0
    then some "category_id is required"
    else none

-- The fields of a request over those of a product.
unfoldable pub over_product : ProductRequest → Product → Product
unfolding trim_space
over_product r p = record p {
  user_id = r.user_id;
  category_id = r.category_id;
  name = trim_space r.name;
  description = r.description;
  image_url = r.image_url;
  file_url = r.file_url;
  price = r.price;
  status = r.status;
}

abbrev pub no_product : Product
no_product = record {
  id = 0;
  user_id = 0;
  category_id = 0;
  name = "";
  description = "";
  image_url = "";
  file_url = "";
  price = pos 0;
  status = "";
  version = 0;
  deleted = false;
}

abbrev pub user_or_all : Option ℕ → ℕ
user_or_all none = 0
user_or_all (some user) = user

-- `ListProducts`
unfoldable pub list_products : Option ℕ → Handler (List Product)
unfolding find_products ◌>>=◌
list_products user = do r ← attempt (find_products (user_or_all user)); pure (or_refused r)

-- `GetProduct`
unfoldable pub get_product : ℕ → Handler Product
unfolding find_product with_found ◌>>=◌
get_product id = do r ← attempt (find_product id); with_found "product" r (λ p. pure (reply p))

unfoldable pub add_product : ProductRequest → Handler Product
unfolding insert_product over_product ◌>>=◌
add_product r = do
  x ← attempt (statement (insert_product (over_product r no_product)))
  pure (or_refused x)

unfoldable pub write_product : Product → Handler Product
unfolding save_product with_result ◌>>=◌
write_product p = do
  r ← attempt (modify (save_product p))
  with_result r (λ _. pure (reply (next_version p)))

-- `UpdateProduct`, behind its checks; the version that is answered is the row's new one.
unfoldable pub update_checked : ProductRequest → Option String → Handler Product
unfolding find_product with_found over_product write_product ◌>>=◌
update_checked r (some fault) = invalid fault
update_checked r none = do
  x ← attempt (find_product r.id)
  with_found "product" x (λ p. write_product (over_product r p))

unfoldable pub update_product : ProductRequest → Handler Product
unfolding product_fault update_checked
update_product r = update_checked r (product_fault r)

-- `DeleteProduct`
unfoldable pub remove_product : ℕ → Handler (Unit {0})
unfolding delete_product ◌>>=◌
remove_product id = do r ← attempt (modify (delete_product id)); pure (or_refused r)

module _ {A : Type 0} (denial : String) (user : ℕ) where
  unfoldable pub when_owned : (Product → Handler A) → Product → Handler A
  when_owned next p = if p.user_id == user then next p else pure (refuse permission_denied denial)

  -- `productOwnedBy`, whose product the rest of a handler takes.
  unfoldable pub with_owned : ℕ → (Product → Handler A) → Handler A
  unfolding find_product with_found when_owned ◌>>=◌
  with_owned product next = do
    r ← attempt (find_product product)
    with_found "product" r (when_owned next)

module _ (storage : BlobStorage) where
  unfoldable pub create_checked : ProductRequest → Option String → Handler Product
  unfolding ensure_containers with_result add_product ◌>>=◌
  create_checked r (some fault) = invalid fault
  create_checked r none = do
    x ← attempt (ensure_containers storage)
    with_result x (λ _. add_product r)

  -- `CreateProduct`
  unfoldable pub create_product : ProductRequest → Handler Product
  unfolding product_fault create_checked
  create_product r = create_checked r (product_fault r)
