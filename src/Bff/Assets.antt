-- ===== src/Bff/Assets.antt =====
-- services/bff/internal/httpapi/catalog_handler.go: uploads, assets and downloads.
pub mod Entitled
use pingu_coin.Base.{
  ℕ, String, List, select, Bool, true, false, ◌||◌, Option, none, some, ◌==◌, ◌⊎◌, inl, inr,
  if◌then◌else◌,
}
use pingu_coin.Base.Int.{pos}
use pingu_coin.Base.Store.{Result, ok, err, M, pure, ◌>>=◌, attempt}
use pingu_coin.Media.Catalog.Model.{Product, ProductAsset}
use pingu_coin.Bff.Errors.{AppError, invalid_error, denied_error, internal_error, from_grpc}
use pingu_coin.Bff.Backend.{
  Claims, HttpRequest, json, no_content, ImageMessage, AssetMessage, RemoteCall, Answer, answer,
  fault, BffStore, call,
}
use pingu_coin.Bff.Repository.{has_paid_order}
use pingu_coin.Bff.Handlers.{
  Handler, refuse_with, with_path_id, with_query_id, with_user, with_body, with_answer,
}
use pingu_coin.Bff.Catalog.{
  ImageTarget, FileTarget, MediaClient, Orders, order_api, legacy_orders, no_orders, ImageInput,
  AssetInput, user32, with_product,
}

abbrev pub image_message : Claims → ℕ → ImageInput → ImageMessage
image_message u id input = record {
  user_id = user32 u;
  product_id = id;
  file_url = input.file_url;
  description = input.description;
  sort_order = input.sort_order;
}

abbrev pub asset_message : Claims → ℕ → AssetInput → AssetMessage
asset_message u id input = record {
  user_id = user32 u;
  product_id = id;
  purpose_id = input.purpose_id;
  file_url = input.file_url;
  original_filename = input.original_filename;
  content_type = input.content_type;
  file_size = input.file_size;
  description = input.description;
  sort_order = input.sort_order;
  is_primary = input.is_primary;
  metadata = input.metadata;
}

module _ (media : MediaClient) where
  unfoldable pub ask_file_target : Claims → ℕ → ℕ → ImageTarget → Handler (ImageTarget × FileTarget)
  unfolding call with_answer ◌>>=◌
  ask_file_target u id purpose image = do
    a ←
        call (λ calls. media.file_target calls (user32 u) id purpose)
          (RemoteCall.asset_upload_url (user32 u) id purpose)
    with_answer a (λ file. pure (json 200 (image, file)))

  unfoldable pub ask_targets : Claims → ℕ → Option ℕ → Handler (ImageTarget × FileTarget)
  unfolding call with_answer ask_file_target ◌>>=◌
  ask_targets u id none = refuse_with (invalid_error "purposeId is required")
  ask_targets u id (some purpose) = do
    a ←
        call (λ calls. media.image_target calls (user32 u) id)
          (RemoteCall.image_upload_url (user32 u) id)
    with_answer a (ask_file_target u id purpose)

  -- `GetUploadTargets`
  unfoldable pub get_upload_targets : HttpRequest (Unit {0}) → Handler (ImageTarget × FileTarget)
  unfolding with_path_id with_user with_query_id ask_targets
  get_upload_targets r = with_path_id r.path_id (λ id.
      with_user r.user (λ u. with_query_id "purposeId" (r.query "purposeId") (ask_targets u id)))

  unfoldable pub ask_confirm_image : ImageMessage → Handler Product
  unfolding call with_answer ◌>>=◌
  ask_confirm_image m = do
    a ← call (λ calls. media.confirm_image calls m) (RemoteCall.confirm_image m)
    with_answer a (λ p. pure (json 200 p))

  -- `ConfirmImage`
  unfoldable pub confirm_image : HttpRequest ImageInput → Handler Product
  unfolding with_path_id with_user with_body ask_confirm_image
  confirm_image r = with_path_id r.path_id (λ id.
      with_user r.user
        (λ u. with_body r.body (λ input. ask_confirm_image (image_message u id input))))

  unfoldable pub ask_delete_image : ImageMessage → Handler (Unit {0})
  unfolding call with_answer ◌>>=◌
  ask_delete_image m = do
    a ← call (λ calls. media.delete_image calls m) (RemoteCall.delete_image m)
    with_answer a (λ _. pure no_content)

  -- `DeleteImage`: the description and the order of the body are not sent.
  unfoldable pub delete_image : HttpRequest ImageInput → Handler (Unit {0})
  unfolding with_path_id with_user with_body ask_delete_image
  delete_image r = with_path_id r.path_id (λ id. with_user r.user (λ u. with_body r.body (λ input.
      ask_delete_image
        (record (image_message u id input) { description = ""; sort_order = pos 0 }))))

  unfoldable pub ask_confirm_asset : AssetMessage → Handler ProductAsset
  unfolding call with_answer ◌>>=◌
  ask_confirm_asset m = do
    a ← call (λ calls. media.confirm_asset calls m) (RemoteCall.confirm_asset m)
    with_answer a (λ p. pure (json 201 p))

  -- `ConfirmAsset`
  unfoldable pub confirm_asset : HttpRequest AssetInput → Handler ProductAsset
  unfolding with_path_id with_user with_body ask_confirm_asset
  confirm_asset r = with_path_id r.path_id (λ id.
      with_user r.user
        (λ u. with_body r.body (λ input. ask_confirm_asset (asset_message u id input))))

  unfoldable pub ask_delete_asset : ℕ → Claims → Handler (Unit {0})
  unfolding call with_answer ◌>>=◌
  ask_delete_asset id u = do
    a ←
        call (λ calls. media.delete_asset calls (user32 u) id)
          (RemoteCall.delete_asset (user32 u) id)
    with_answer a (λ _. pure no_content)

  -- `DeleteAsset`
  unfoldable pub delete_asset : HttpRequest (Unit {0}) → Handler (Unit {0})
  unfolding with_path_id with_user ask_delete_asset
  delete_asset r = with_path_id r.path_id (λ id. with_user r.user (ask_delete_asset id))

-- A yes or no, or the error that is answered.
abbrev pub Verdict : Type 0
Verdict = AppError ⊎ Bool

abbrev pub verdict_of : Answer Bool → Verdict
verdict_of (answer b) = inr b
verdict_of (fault e) = inl (from_grpc e)

abbrev pub verdict_or_internal : Result Bool → Verdict
verdict_or_internal (ok b) = inr b
verdict_or_internal (err _) = inl internal_error

-- `hasPaidOrder`
unfoldable pub has_paid : Orders → ℕ → ℕ → M BffStore Verdict
unfolding call has_paid_order ◌>>=◌
has_paid (order_api paid) user product = do
  a ← call (λ calls. paid calls user product) (RemoteCall.has_paid_order user product)
  pure (verdict_of a)
has_paid legacy_orders user product = do
  r ← attempt (has_paid_order user product)
  pure (verdict_or_internal r)
has_paid no_orders user product = pure (inr false)

module _ (media : MediaClient) (orders : Orders) where
  unfoldable pub can_see_product : Claims → ℕ → Answer Product → M BffStore Verdict
  unfolding has_paid from_grpc
  can_see_product u id (fault e) = pure (inl (from_grpc e))
  can_see_product u id (answer p) =
      if p.user_id == user32 u then pure (inr true) else has_paid orders u.user_id id

  -- `canSeePrivate`
  unfoldable pub can_see_private : Option Claims → ℕ → M BffStore Verdict
  unfolding call can_see_product ◌>>=◌
  can_see_private none id = pure (inr false)
  can_see_private (some u) id = do
    a ← call (λ calls. media.product calls id) (RemoteCall.get_product id)
    can_see_product u id a

  abbrev pub visible : Bool → ProductAsset → Bool
  visible allowed a = a.purpose.is_public || allowed

  unfoldable pub show_assets : List ProductAsset → Verdict → Handler (List ProductAsset)
  show_assets assets (inl e) = refuse_with e
  show_assets assets (inr allowed) = pure (json 200 (select (visible allowed) assets))

  unfoldable pub assets_listed : Option Claims → ℕ → List ProductAsset → Handler (List ProductAsset)
  unfolding can_see_private show_assets ◌>>=◌
  assets_listed user id assets = do allowed ← can_see_private user id; show_assets assets allowed

  unfoldable pub assets_of : Option Claims → ℕ → Option ℕ → Handler (List ProductAsset)
  unfolding call with_answer assets_listed ◌>>=◌
  assets_of user id purpose = do
    a ← call (λ calls. media.assets calls id purpose) (RemoteCall.list_assets id purpose)
    with_answer a (assets_listed user id)

  -- `ListAssets`
  unfoldable pub list_assets : HttpRequest (Unit {0}) → Handler (List ProductAsset)
  unfolding with_path_id with_query_id assets_of
  list_assets r =
      with_path_id r.path_id
        (λ id. with_query_id "purposeId" (r.query "purposeId") (assets_of r.user id))

  unfoldable pub download : ℕ → Handler String
  unfolding call with_answer ◌>>=◌
  download id = do
    a ← call (λ calls. media.download_url calls id) (RemoteCall.asset_download_url id)
    with_answer a (λ url. pure (json 200 url))

  unfoldable pub download_if : ℕ → Verdict → Handler String
  unfolding download
  download_if id (inl e) = refuse_with e
  download_if id (inr paid) =
      if paid then download id else refuse_with (denied_error "product not purchased")

  unfoldable pub download_bought : ℕ → Claims → ℕ → Handler String
  unfolding has_paid download_if ◌>>=◌
  download_bought id u product = do paid ← has_paid orders u.user_id product; download_if id paid

  unfoldable pub download_product : ℕ → Claims → ℕ → Product → Handler String
  unfolding download download_bought
  download_product id u product p =
      if p.user_id == user32 u then download id else download_bought id u product

  unfoldable pub download_asset : ℕ → Claims → ProductAsset → Handler String
  unfolding with_product download_product
  download_asset id u a =
      if a.purpose.is_public
      then refuse_with (invalid_error "public asset uses storageUrl")
      else with_product media a.product_id (download_product id u a.product_id)

  unfoldable pub download_known : ℕ → Claims → Handler String
  unfolding call with_answer download_asset ◌>>=◌
  download_known id u = do
    a ← call (λ calls. media.asset calls id) (RemoteCall.get_asset id)
    with_answer a (download_asset id u)

  -- `GetAssetDownload`
  unfoldable pub get_asset_download : HttpRequest (Unit {0}) → Handler String
  unfolding with_path_id with_user download_known
  get_asset_download r = with_path_id r.path_id (λ id. with_user r.user (download_known id))
