-- ===== src/Media/Catalog/Assets.antt =====
-- services/media-api/internal/grpcserver/product_asset_server.go.
use pingu_coin.Base.{
  ℕ, String, List, Bool, false, ◌||◌, Option, none, some, ◌==◌, ◌%◌, ◌^◌, ltb, if◌then◌else◌,
}
use pingu_coin.Base.Int.{ℤ, pos, ltb_ℤ}
use pingu_coin.Base.Text.{◌is◌, trim_space}
use pingu_coin.Base.Store.{Result, ok, err, is_missing, pure, ◌>>=◌, modify, attempt}
use pingu_coin.Base.Rpc.{reply}
use pingu_coin.Media.Server.{or_refused}
use pingu_coin.Media.Catalog.Model.{Product, ProductAsset, ProductAssetPurpose}
use pingu_coin.Media.Catalog.Storage.{
  BlobStorage, BlobName, named, outside, unreadable, product_asset_prefix, asset_blob_name,
  delete_asset_blob, issue_asset_upload_url, issue_download_url, strip_query,
}
use pingu_coin.Media.Catalog.Repository.{
  find_purpose, find_product, find_assets, find_asset, create_asset, delete_asset,
}
use pingu_coin.Media.Catalog.Products.{
  Handler, invalid, broken, with_result, with_found, with_owned,
}
use pingu_coin.Media.Catalog.Uploads.{FileUpload, signed_url}

pub record AssetRequest : Type 0 where
  pub user_id : ℕ
  pub product_id : ℕ
  pub purpose_id : ℕ
  pub file_url : String
  pub original_filename : String
  pub content_type : String
  pub file_size : ℤ
  pub description : String
  pub sort_order : ℤ
  pub is_primary : Bool
  pub metadata : String

abbrev pub not_asset_owner : String
not_asset_owner = "product is not owned by user"

abbrev pub purpose_or_all : Option ℕ → ℕ
purpose_or_all none = 0
purpose_or_all (some purpose) = purpose % 2 ^ 16

unfoldable pub listed_assets : ℕ → Option ℕ → Handler (List ProductAsset)
unfolding find_assets ◌>>=◌
listed_assets product purpose = do
  r ← attempt (find_assets product (purpose_or_all purpose))
  pure (or_refused r)

-- `ListProductAssets`
unfoldable pub list_assets : ℕ → Option ℕ → Handler (List ProductAsset)
unfolding listed_assets
list_assets product purpose =
    if product == 0 then invalid "product_id is required" else listed_assets product purpose

-- `GetProductAsset`
unfoldable pub get_asset : ℕ → Handler ProductAsset
unfolding find_asset with_found ◌>>=◌
get_asset id = do r ← attempt (find_asset id); with_found "product asset" r (λ a. pure (reply a))

module _ {A : Type 0} where
  unfoldable pub purpose_found :
      Result ProductAssetPurpose → (ProductAssetPurpose → Handler A) → Handler A
  purpose_found (ok p) next = next p
  purpose_found (err e) next =
      if is_missing e then invalid "purpose_id is not registered" else broken

  unfoldable pub purpose_looked_up : ℕ → (ProductAssetPurpose → Handler A) → Handler A
  unfolding find_purpose purpose_found ◌>>=◌
  purpose_looked_up id next = do r ← attempt (find_purpose id); purpose_found r next

  -- `findPurpose`
  unfoldable pub with_purpose : ℕ → (ProductAssetPurpose → Handler A) → Handler A
  unfolding purpose_looked_up
  with_purpose id next =
      if id == 0 || ltb 65535 id then invalid "purpose_id is invalid" else purpose_looked_up id next

module _ (storage : BlobStorage) (is_json : String → Bool) where
  unfoldable pub asset_target : ℕ → ℕ → ProductAssetPurpose → Handler FileUpload
  unfolding issue_asset_upload_url with_result product_asset_prefix ◌>>=◌
  asset_target user product purpose = do
    r ← attempt (issue_asset_upload_url storage purpose.is_public)
    with_result r (λ t. pure (
        reply (record {
          target = t;
          path_prefix = product_asset_prefix storage user product purpose.id;
        })))

  -- `GetProductAssetUploadURL`
  unfoldable pub get_asset_upload_url : ℕ → ℕ → ℕ → Handler FileUpload
  unfolding with_owned with_purpose asset_target
  get_asset_upload_url user product purpose =
      with_owned not_asset_owner user product
        (λ _. with_purpose purpose (asset_target user product))

  abbrev pub metadata_of : AssetRequest → String
  metadata_of r = if trim_space r.metadata is "" then "{}" else trim_space r.metadata

  unfoldable pub new_asset : AssetRequest → String → ProductAssetPurpose → ProductAsset
  unfolding strip_query trim_space
  new_asset r file_url purpose = record {
    id = 0;
    product_id = r.product_id;
    purpose_id = purpose.id;
    purpose = purpose;
    storage_url = strip_query storage file_url;
    original_filename = trim_space r.original_filename;
    content_type = trim_space r.content_type;
    file_size = r.file_size;
    description = r.description;
    sort_order = r.sort_order;
    is_primary = r.is_primary;
    metadata = metadata_of r;
  }

  unfoldable pub add_asset : ProductAsset → Handler ProductAsset
  unfolding create_asset ◌>>=◌
  add_asset a = do r ← attempt (create_asset a); pure (or_refused r)

  unfoldable pub confirm_asset_named :
      AssetRequest → String → ProductAssetPurpose → BlobName → Handler ProductAsset
  unfolding trim_space new_asset add_asset
  confirm_asset_named r file_url purpose (named _) =
      if is_json (metadata_of r)
      then add_asset (new_asset r file_url purpose)
      else invalid "metadata must be valid JSON"
  confirm_asset_named r file_url purpose outside =
      invalid "file_url is not under the product asset upload path"
  confirm_asset_named r file_url purpose unreadable =
      invalid "file_url is not under the product asset upload path"

  unfoldable pub confirm_asset_at : AssetRequest → String → Handler ProductAsset
  unfolding with_owned with_purpose asset_blob_name confirm_asset_named
  confirm_asset_at r file_url = with_owned not_asset_owner r.user_id r.product_id (λ _.
      with_purpose r.purpose_id (λ purpose.
        confirm_asset_named r file_url purpose
          (asset_blob_name storage r.user_id r.product_id file_url purpose.id purpose.is_public)))

  -- `ConfirmProductAssetUpload`; `is_json` is `json.Valid`.
  unfoldable pub confirm_asset_upload : AssetRequest → Handler ProductAsset
  unfolding trim_space confirm_asset_at
  confirm_asset_upload r =
      if trim_space r.file_url is ""
      then invalid "file_url is required"
      else if ltb_ℤ r.file_size (pos 0)
      then invalid "file_size must not be negative"
      else confirm_asset_at r (trim_space r.file_url)

module _ (storage : BlobStorage) where
  unfoldable pub drop_asset : ProductAsset → Handler (Unit {0})
  unfolding delete_asset ◌>>=◌
  drop_asset a = do r ← attempt (modify (delete_asset a.id)); pure (or_refused r)

  unfoldable pub delete_asset_named : ProductAsset → BlobName → Handler (Unit {0})
  unfolding delete_asset_blob with_result drop_asset ◌>>=◌
  delete_asset_named a (named name) = do
    r ← attempt (delete_asset_blob storage name a.purpose.is_public)
    with_result r (λ _. drop_asset a)
  delete_asset_named a outside = broken
  delete_asset_named a unreadable = broken

  unfoldable pub delete_asset_of : ℕ → ProductAsset → Handler (Unit {0})
  unfolding with_owned asset_blob_name delete_asset_named
  delete_asset_of user a = with_owned not_asset_owner user a.product_id (λ _.
      delete_asset_named a
        (asset_blob_name storage user a.product_id a.storage_url a.purpose_id a.purpose.is_public))

  -- `DeleteProductAsset`
  unfoldable pub delete_product_asset : ℕ → ℕ → Handler (Unit {0})
  unfolding find_asset with_found delete_asset_of ◌>>=◌
  delete_product_asset user id = do
    r ← attempt (find_asset id)
    with_found "product asset" r (delete_asset_of user)

  unfoldable pub asset_signed : BlobName → Handler String
  unfolding issue_download_url
  asset_signed (named name) = pure (signed_url (issue_download_url storage name))
  asset_signed outside = broken
  asset_signed unreadable = broken

  unfoldable pub asset_download : ProductAsset → Product → Handler String
  unfolding asset_blob_name asset_signed
  asset_download a p =
      asset_signed (asset_blob_name storage p.user_id p.id a.storage_url a.purpose_id false)

  unfoldable pub asset_product : ProductAsset → Handler String
  unfolding find_product with_found asset_download ◌>>=◌
  asset_product a = do
    r ← attempt (find_product a.product_id)
    with_found "product" r (asset_download a)

  unfoldable pub private_download : ProductAsset → Handler String
  unfolding asset_product
  private_download a =
      if a.purpose.is_public
      then invalid "public assets can be read from storage_url"
      else asset_product a

  -- `GetProductAssetDownloadURL`
  unfoldable pub get_asset_download_url : ℕ → Handler String
  unfolding find_asset with_found private_download ◌>>=◌
  get_asset_download_url id = do
    r ← attempt (find_asset id)
    with_found "product asset" r private_download
