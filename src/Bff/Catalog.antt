-- ===== src/Bff/Catalog.antt =====
-- services/bff/internal/httpapi/catalog_handler.go. Times are left out of the answers, whose fields
-- are those of the messages of the media service.
use pingu_coin.Base.{ℕ, String, List, Bool, Option, some, ◌==◌, ◌%◌, ◌^◌, if◌then◌else◌}
use pingu_coin.Base.Int.{ℤ}
use pingu_coin.Base.Store.{pure, ◌>>=◌}
use pingu_coin.Media.Catalog.Model.{Product, ProductAsset}
use pingu_coin.Bff.Errors.{denied_error}
use pingu_coin.Bff.Backend.{
  Claims, HttpRequest, json, no_content, ProductMessage, ImageMessage, AssetMessage, RemoteCall,
  Answer, call,
}
use pingu_coin.Bff.Handlers.{
  Handler, refuse_with, with_path_id, with_query_id, with_user, with_body, with_answer,
}

-- Where to upload: the blobs' endpoint, the container, the prefixes and the signature.
pub record ImageTarget : Type 0 where
  pub blob_endpoint : String
  pub container : String
  pub main_image_prefix : String
  pub sub_images_prefix : String
  pub sas_token : String

pub record FileTarget : Type 0 where
  pub blob_endpoint : String
  pub container : String
  pub path_prefix : String
  pub sas_token : String

-- The media service: its answers given the calls before.
pub record MediaClient : Type 0 where
  pub list : List RemoteCall → Option ℕ → Answer (List Product)
  pub product : List RemoteCall → ℕ → Answer Product
  pub create : List RemoteCall → ProductMessage → Answer Product
  pub update : List RemoteCall → ProductMessage → Answer Product
  pub delete : List RemoteCall → ℕ → Answer (Unit {0})
  pub image_target : List RemoteCall → ℕ → ℕ → Answer ImageTarget
  pub file_target : List RemoteCall → ℕ → ℕ → ℕ → Answer FileTarget
  pub confirm_image : List RemoteCall → ImageMessage → Answer Product
  pub delete_image : List RemoteCall → ImageMessage → Answer (Unit {0})
  pub confirm_asset : List RemoteCall → AssetMessage → Answer ProductAsset
  pub delete_asset : List RemoteCall → ℕ → ℕ → Answer (Unit {0})
  pub assets : List RemoteCall → ℕ → Option ℕ → Answer (List ProductAsset)
  pub asset : List RemoteCall → ℕ → Answer ProductAsset
  pub download_url : List RemoteCall → ℕ → Answer String

-- Who knows of paid orders: the order service, the gateway's own table, or nobody.
pub data Orders : Type 0 where
  order_api : (List RemoteCall → ℕ → ℕ → Answer Bool) → Orders
  legacy_orders : Orders
  no_orders : Orders

pub record ProductInput : Type 0 where
  pub category_id : ℕ
  pub name : String
  pub description : String
  pub price : ℤ
  pub status : String

pub record ImageInput : Type 0 where
  pub file_url : String
  pub description : String
  pub sort_order : ℤ

pub record AssetInput : Type 0 where
  pub purpose_id : ℕ
  pub file_url : String
  pub original_filename : String
  pub content_type : String
  pub file_size : ℤ
  pub description : String
  pub sort_order : ℤ
  pub is_primary : Bool
  pub metadata : String

-- `uint32(u.UserID)`
abbrev pub user32 : Claims → ℕ
user32 u = u.user_id % 2 ^ 32

-- `Me`
unfoldable pub me : HttpRequest (Unit {0}) → Handler (ℕ × String × String)
unfolding with_user
me r = with_user r.user (λ u. pure (json 200 (u.user_id, u.email, u.name)))

module _ (media : MediaClient) where
  unfoldable pub list_products : Option ℕ → Handler (List Product)
  unfolding call with_answer ◌>>=◌
  list_products user = do
    a ← call (λ calls. media.list calls user) (RemoteCall.list_products user)
    with_answer a (λ products. pure (json 200 products))

  -- `ListProducts`
  unfoldable pub list_all_products : HttpRequest (Unit {0}) → Handler (List Product)
  unfolding with_query_id list_products
  list_all_products r = with_query_id "userId" (r.query "userId") list_products

  -- `ListMyProducts`
  unfoldable pub list_my_products : HttpRequest (Unit {0}) → Handler (List Product)
  unfolding with_user list_products
  list_my_products r = with_user r.user (λ u. list_products (some (user32 u)))

  module _ {A : Type 0} where
    -- `GetProduct` of the media service.
    unfoldable pub with_product : ℕ → (Product → Handler A) → Handler A
    unfolding call with_answer ◌>>=◌
    with_product id next = do
      a ← call (λ calls. media.product calls id) (RemoteCall.get_product id)
      with_answer a next

  -- `GetProduct`
  unfoldable pub get_product : HttpRequest (Unit {0}) → Handler Product
  unfolding with_path_id with_product
  get_product r = with_path_id r.path_id (λ id. with_product id (λ p. pure (json 200 p)))

  abbrev pub new_product : Claims → ProductInput → ProductMessage
  new_product u input = record {
    id = 0;
    user_id = user32 u;
    category_id = input.category_id;
    name = input.name;
    description = input.description;
    image_url = "";
    file_url = "";
    price = input.price;
    status = input.status;
  }

  unfoldable pub ask_product : Claims → ProductInput → Handler Product
  unfolding call with_answer ◌>>=◌
  ask_product u input = do
    a ←
        call (λ calls. media.create calls (new_product u input))
          (RemoteCall.create_product (new_product u input))
    with_answer a (λ p. pure (json 201 p))

  -- `CreateProduct`
  unfoldable pub create_product : HttpRequest ProductInput → Handler Product
  unfolding with_user with_body ask_product
  create_product r = with_user r.user (λ u. with_body r.body (ask_product u))

  module _ {A : Type 0} where
    unfoldable pub own : (Product → Handler A) → Claims → Product → Handler A
    own next u p =
        if p.user_id == user32 u
        then next p
        else refuse_with (denied_error "cannot modify another user's product")

    -- `owned`
    unfoldable pub owned : Option Claims → ℕ → (Product → Handler A) → Handler A
    unfolding with_user with_product own
    owned user id next = with_user user (λ u. with_product id (own next u))

  abbrev pub changed_product : ℕ → Product → ProductInput → ProductMessage
  changed_product id current input = record {
    id = id;
    user_id = current.user_id;
    category_id = input.category_id;
    name = input.name;
    description = input.description;
    image_url = current.image_url;
    file_url = current.file_url;
    price = input.price;
    status = input.status;
  }

  unfoldable pub ask_update : ℕ → Product → ProductInput → Handler Product
  unfolding call with_answer ◌>>=◌
  ask_update id current input = do
    a ←
        call (λ calls. media.update calls (changed_product id current input))
          (RemoteCall.update_product (changed_product id current input))
    with_answer a (λ p. pure (json 200 p))

  -- `UpdateProduct`
  unfoldable pub update_product : HttpRequest ProductInput → Handler Product
  unfolding with_path_id owned with_body ask_update
  update_product r =
      with_path_id r.path_id
        (λ id. owned r.user id (λ current. with_body r.body (ask_update id current)))

  unfoldable pub ask_delete : ℕ → Handler (Unit {0})
  unfolding call with_answer ◌>>=◌
  ask_delete id = do
    a ← call (λ calls. media.delete calls id) (RemoteCall.delete_product id)
    with_answer a (λ _. pure no_content)

  -- `DeleteProduct`
  unfoldable pub delete_product : HttpRequest (Unit {0}) → Handler (Unit {0})
  unfolding with_path_id owned ask_delete
  delete_product r = with_path_id r.path_id (λ id. owned r.user id (λ _. ask_delete id))
