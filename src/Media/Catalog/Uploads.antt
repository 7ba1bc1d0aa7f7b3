-- ===== src/Media/Catalog/Uploads.antt =====
-- services/media-api/internal/grpcserver/product_server.go: images and files of products.
pub mod Within
pub mod Addresses
pub mod Guarded
pub mod Isolated
use pingu_coin.Base.{ℕ, String, Bool, Option, none, some, if◌then◌else◌}
use pingu_coin.Base.Int.{ℤ}
use pingu_coin.Base.Text.{◌is◌, trim_space}
use pingu_coin.Base.Store.{Result, ok, err, M, pure, ◌>>=◌, statement, modify, attempt}
use pingu_coin.Base.Rpc.{internal, Reply, reply, refuse}
use pingu_coin.Media.Catalog.Model.{Product, ProductDetail, CatalogStore}
use pingu_coin.Media.Catalog.Storage.{
  BlobStorage, ImageKind, main_kind, sub_kind, unknown_kind, BlobName, named, outside, unreadable,
  UploadUrl, main_image_prefix, sub_images_prefix, product_file_prefix, image_blob_name,
  file_blob_name, classify, delete_image_blob, delete_file_blob, issue_upload_url,
  issue_download_url, strip_query,
}
use pingu_coin.Media.Catalog.Repository.{
  find_product, insert_detail, save_product, delete_by_image_url,
}
use pingu_coin.Media.Catalog.Products.{
  Handler, invalid, broken, with_result, with_found, with_owned, write_product,
}

-- `ConfirmProductImageUploadRequest`; the other three requests have its first three fields.
pub record UploadRequest : Type 0 where
  pub user_id : ℕ
  pub product_id : ℕ
  pub file_url : String
  pub description : String
  pub sort_order : ℤ

-- Where to upload, with one prefix or two.
pub record ImageUpload : Type 0 where
  pub target : UploadUrl
  pub main_image_prefix : String
  pub sub_images_prefix : String

pub record FileUpload : Type 0 where
  pub target : UploadUrl
  pub path_prefix : String

-- The product, and the detail where one is stored.
abbrev pub Confirmed : Type 0
Confirmed = Product × Option ProductDetail

abbrev pub not_owner : String
not_owner = "user does not own this product"

abbrev pub new_detail : UploadRequest → Product → String → ProductDetail
new_detail r p url = record {
  id = 0;
  product_id = p.id;
  image_url = url;
  description = r.description;
  sort_order = r.sort_order;
}

abbrev pub signed_url : Option String → Reply String
signed_url none = refuse internal "internal server error"
signed_url (some url) = reply url

abbrev pub confirmed : Reply Product → Reply Confirmed
confirmed (reply p) = reply (p, none)
confirmed (refuse code text) = refuse code text

unfoldable pub add_detail : UploadRequest → Product → String → Handler Confirmed
unfolding insert_detail with_result ◌>>=◌
add_detail r p url = do
  x ← attempt (statement (insert_detail (new_detail r p url)))
  with_result x (λ d. pure (reply (p, some d)))

unfoldable pub show_main : Product → String → Handler Confirmed
unfolding write_product ◌>>=◌
show_main p url = do x ← write_product (record p { image_url = url }); pure (confirmed x)

unfoldable pub confirm_kind : UploadRequest → Product → String → ImageKind → Handler Confirmed
unfolding show_main add_detail
confirm_kind r p url main_kind = show_main p url
confirm_kind r p url sub_kind = add_detail r p url
confirm_kind r p url unknown_kind = invalid "file_url must be under main_image/ or sub_images/"

-- A product whose address is that of the blob loses it.
unfoldable pub clear_main : Product → String → Handler Product
unfolding write_product
clear_main p url =
    if p.image_url is url then write_product (record p { image_url = "" }) else pure (reply p)

unfoldable pub clear_sub : Product → String → Handler Product
unfolding delete_by_image_url with_result ◌>>=◌
clear_sub p url = do
  r ← attempt (modify (delete_by_image_url p.id url))
  with_result r (λ _. pure (reply p))

unfoldable pub clear_kind : Product → String → ImageKind → Handler Product
unfolding clear_main clear_sub
clear_kind p url main_kind = clear_main p url
clear_kind p url sub_kind = clear_sub p url
clear_kind p url unknown_kind = pure (reply p)

unfoldable pub clear_file : Product → String → Handler Product
unfolding write_product
clear_file p url =
    if p.file_url is url then write_product (record p { file_url = "" }) else pure (reply p)

module _ (storage : BlobStorage) where
  unfoldable pub image_target : ℕ → ℕ → Handler ImageUpload
  unfolding issue_upload_url with_result main_image_prefix sub_images_prefix ◌>>=◌
  image_target user product = do
    r ← attempt (issue_upload_url storage storage.public_container)
    with_result r (λ t. pure (
        reply (record {
          target = t;
          main_image_prefix = main_image_prefix storage user product;
          sub_images_prefix = sub_images_prefix storage user product;
        })))

  -- `GetProductImageUploadURL`
  unfoldable pub get_image_upload_url : ℕ → ℕ → Handler ImageUpload
  unfolding with_owned image_target
  get_image_upload_url user product =
      with_owned not_owner user product (λ _. image_target user product)

  unfoldable pub confirm_named : UploadRequest → String → Product → BlobName → Handler Confirmed
  unfolding strip_query classify confirm_kind
  confirm_named r file_url p (named name) =
      confirm_kind r p (strip_query storage file_url) (classify storage r.user_id r.product_id name)
  confirm_named r file_url p outside =
      invalid "file_url is not under the product's image upload path"
  confirm_named r file_url p unreadable =
      invalid "file_url is not under the product's image upload path"

  unfoldable pub confirm_image_at : UploadRequest → String → Handler Confirmed
  unfolding with_owned image_blob_name confirm_named
  confirm_image_at r file_url =
      with_owned not_owner r.user_id r.product_id
        (λ p. confirm_named r file_url p (image_blob_name storage r.user_id r.product_id file_url))

  -- `ConfirmProductImageUpload`
  unfoldable pub confirm_image_upload : UploadRequest → Handler Confirmed
  unfolding trim_space confirm_image_at
  confirm_image_upload r =
      if trim_space r.file_url is ""
      then invalid "file_url is required"
      else confirm_image_at r (trim_space r.file_url)

  unfoldable pub delete_image_named : UploadRequest → String → Product → BlobName → Handler Product
  unfolding delete_image_blob with_result strip_query classify clear_kind ◌>>=◌
  delete_image_named r file_url p (named name) = do
    x ← attempt (delete_image_blob storage name)
    with_result x (λ _.
        clear_kind p (strip_query storage file_url) (classify storage r.user_id r.product_id name))
  delete_image_named r file_url p outside =
      invalid "file_url is not under the product's image upload path"
  delete_image_named r file_url p unreadable = broken

  unfoldable pub delete_image_at : UploadRequest → String → Handler Product
  unfolding with_owned image_blob_name delete_image_named
  delete_image_at r file_url = with_owned not_owner r.user_id r.product_id (λ p.
      delete_image_named r file_url p (image_blob_name storage r.user_id r.product_id file_url))

  -- `DeleteProductImageUpload`
  unfoldable pub delete_image_upload : UploadRequest → Handler Product
  unfolding trim_space delete_image_at
  delete_image_upload r =
      if trim_space r.file_url is ""
      then invalid "file_url is required"
      else delete_image_at r (trim_space r.file_url)

  unfoldable pub file_target : ℕ → ℕ → Handler FileUpload
  unfolding issue_upload_url with_result product_file_prefix ◌>>=◌
  file_target user product = do
    r ← attempt (issue_upload_url storage storage.private_container)
    with_result r (λ t.
        pure
          (reply (record { target = t; path_prefix = product_file_prefix storage user product })))

  -- `GetProductFileUploadURL`
  unfoldable pub get_file_upload_url : ℕ → ℕ → Handler FileUpload
  unfolding with_owned file_target
  get_file_upload_url user product =
      with_owned not_owner user product (λ _. file_target user product)

  unfoldable pub confirm_file_named : String → Product → BlobName → Handler Product
  unfolding strip_query write_product
  confirm_file_named file_url p (named name) =
      write_product (record p { file_url = strip_query storage file_url })
  confirm_file_named file_url p outside =
      invalid "file_url is not under the product's file upload path"
  confirm_file_named file_url p unreadable =
      invalid "file_url is not under the product's file upload path"

  unfoldable pub confirm_file_at : UploadRequest → String → Handler Product
  unfolding with_owned file_blob_name confirm_file_named
  confirm_file_at r file_url =
      with_owned not_owner r.user_id r.product_id (λ p.
        confirm_file_named file_url p (file_blob_name storage r.user_id r.product_id file_url))

  -- `ConfirmProductFileUpload`
  unfoldable pub confirm_file_upload : UploadRequest → Handler Product
  unfolding trim_space confirm_file_at
  confirm_file_upload r =
      if trim_space r.file_url is ""
      then invalid "file_url is required"
      else confirm_file_at r (trim_space r.file_url)

  unfoldable pub delete_file_named : String → Product → BlobName → Handler Product
  unfolding delete_file_blob with_result strip_query clear_file ◌>>=◌
  delete_file_named file_url p (named name) = do
    x ← attempt (delete_file_blob storage name)
    with_result x (λ _. clear_file p (strip_query storage file_url))
  delete_file_named file_url p outside =
      invalid "file_url is not under the product's file upload path"
  delete_file_named file_url p unreadable = broken

  unfoldable pub delete_file_at : UploadRequest → String → Handler Product
  unfolding with_owned file_blob_name delete_file_named
  delete_file_at r file_url =
      with_owned not_owner r.user_id r.product_id
        (λ p. delete_file_named file_url p (file_blob_name storage r.user_id r.product_id file_url))

  -- `DeleteProductFileUpload`
  unfoldable pub delete_file_upload : UploadRequest → Handler Product
  unfolding trim_space delete_file_at
  delete_file_upload r =
      if trim_space r.file_url is ""
      then invalid "file_url is required"
      else delete_file_at r (trim_space r.file_url)

  unfoldable pub download_named : BlobName → Handler String
  unfolding issue_download_url
  download_named (named name) = pure (signed_url (issue_download_url storage name))
  download_named outside = broken
  download_named unreadable = broken

  unfoldable pub download_of : Product → Handler String
  unfolding file_blob_name download_named
  download_of p =
      if p.file_url is ""
      then invalid "product has no file_url"
      else download_named (file_blob_name storage p.user_id p.id p.file_url)

  -- `GetProductDownloadURL`
  unfoldable pub get_download_url : ℕ → Handler String
  unfolding find_product with_found download_of ◌>>=◌
  get_download_url id = do r ← attempt (find_product id); with_found "product" r download_of
