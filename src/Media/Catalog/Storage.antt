-- ===== src/Media/Catalog/Storage.antt =====
-- services/media-api/internal/storage/blob.go: the blobs of products. A request to the storage fails
-- like a statement does; times are left out.
use pingu_coin.Base.{
  ℕ, String, [], ◌∷◌, ◌++◌, Bool, not, ◌&&◌, ◌||◌, Option, none, some, ◌==◌, if◌then◌else◌, select,
  exists,
}
use pingu_coin.Base.Text.{◌is◌, ◌<>◌, decimal, trim_suffix, has_prefix, trim_prefix, has_suffix}
use pingu_coin.Base.Store.{provider_failed, M, pure, throw, ◌>>=◌, ◌>>◌, modify}
use pingu_coin.Media.Catalog.Model.{Blob, CatalogStore}

-- `url.URL`, as far as it is read.
pub record Url : Type 0 where
  pub scheme : String
  pub host : String
  pub path : String
  pub raw_query : String
  pub fragment : String

-- `BlobStorage` with net/url, and with the Azure SDK's endpoint and signed addresses: of a container,
-- or of a blob in it; `none` is an error.
pub record BlobStorage : Type 0 where
  pub endpoint : String
  pub public_container : String
  pub private_container : String
  pub env : String
  pub parse_url : String → Option Url
  pub print_url : Url → String
  pub sign : String → Option String → Option String

pub data ImageKind : Type 0 where
  unknown_kind main_kind sub_kind : ImageKind

-- The name of a blob, `ErrBlobNotInProductPath`, or another error.
pub data BlobName : Type 0 where
  named : String → BlobName
  outside : BlobName
  unreadable : BlobName

pub record UploadUrl : Type 0 where
  pub blob_endpoint : String
  pub container : String
  pub sas_token : String

abbrev pub is_blob : String → String → Blob → Bool
is_blob container name b = (b.container is container) && (b.name is name)

-- `CreateContainer`, where a container that exists is no error.
unfoldable pub ensure_container : String → M CatalogStore (Unit {0})
ensure_container c = modify (λ s. record s {
  containers = if exists (λ x. x is c) s.containers then s.containers else s.containers ++ c ∷ [];
})

-- `deleteBlob`: a blob that is not there is no error.
unfoldable pub delete_blob : String → String → M CatalogStore (Unit {0})
delete_blob container name =
    modify (λ s. record s { blobs = select (λ b. not (is_blob container name b)) s.blobs })

module _ (storage : BlobStorage) where
  open storage use {endpoint, public_container, private_container, env, parse_url, print_url, sign}

  -- `EnsureContainers`
  unfoldable pub ensure_containers : M CatalogStore (Unit {0})
  unfolding ensure_container ◌>>=◌
  ensure_containers = do ensure_container public_container; ensure_container private_container

  -- `BlobEndpoint`
  unfoldable pub blob_endpoint : String
  unfolding trim_suffix
  blob_endpoint = trim_suffix endpoint "/"

  module _ (user product : ℕ) where
    -- `ProductPathPrefix`
    unfoldable pub product_path_prefix : String
    unfolding decimal
    product_path_prefix =
        env <> ("/products/" <> (decimal user <> ("/" <> (decimal product <> "/"))))

    -- `MainImagePrefix`, `SubImagesPrefix`, `ProductFilePrefix`
    unfoldable pub main_image_prefix : String
    unfolding product_path_prefix
    main_image_prefix = product_path_prefix <> "main_image/"

    unfoldable pub sub_images_prefix : String
    unfolding product_path_prefix
    sub_images_prefix = product_path_prefix <> "sub_images/"

    unfoldable pub product_file_prefix : String
    unfolding product_path_prefix
    product_file_prefix = product_path_prefix <> "product_file/"

    -- `ProductAssetPrefix`
    unfoldable pub product_asset_prefix : ℕ → String
    unfolding product_path_prefix decimal
    product_asset_prefix purpose = product_path_prefix <> ("assets/" <> (decimal purpose <> "/"))

    -- The blob that a path names, where the container's blobs begin by `prefix`.
    unfoldable pub name_in_path : String → String → BlobName
    unfolding product_path_prefix has_prefix trim_prefix has_suffix
    name_in_path prefix path =
        let name = trim_prefix path prefix in
        if not (has_prefix path (prefix <> product_path_prefix))
        then outside
        else if (name is "") || has_suffix name "/"
        then outside
        else named name

    abbrev pub name_at : String → Url → Url → BlobName
    name_at container at target =
        if not (target.scheme is at.scheme) || not (target.host is at.host)
        then outside
        else name_in_path (trim_suffix at.path "/" <> ("/" <> (container <> "/"))) target.path

    abbrev pub name_of_parsed : String → Option Url → Option Url → BlobName
    name_of_parsed container none at = unreadable
    name_of_parsed container (some target) none = unreadable
    name_of_parsed container (some target) (some at) = name_at container at target

    -- `blobNameFromURL`
    unfoldable pub blob_name_from_url : String → String → BlobName
    unfolding blob_endpoint name_in_path trim_suffix
    blob_name_from_url file_url container =
        name_of_parsed container (parse_url file_url) (parse_url blob_endpoint)

    -- `ImageBlobNameFromURL`, `FileBlobNameFromURL`
    unfoldable pub image_blob_name : String → BlobName
    unfolding blob_name_from_url
    image_blob_name file_url = blob_name_from_url file_url public_container

    unfoldable pub file_blob_name : String → BlobName
    unfolding blob_name_from_url
    file_blob_name file_url = blob_name_from_url file_url private_container

    -- The prefix of the purposes that were columns before.
    unfoldable pub legacy_prefix : ℕ → String
    unfolding main_image_prefix sub_images_prefix product_file_prefix
    legacy_prefix purpose =
        if purpose == 1
        then main_image_prefix
        else if purpose == 2
        then sub_images_prefix
        else if purpose == 3
        then product_file_prefix
        else ""

    unfoldable pub asset_name : ℕ → BlobName → BlobName
    unfolding product_asset_prefix legacy_prefix has_prefix
    asset_name purpose (named name) =
        if has_prefix name (product_asset_prefix purpose)
        then named name
        else if (legacy_prefix purpose is "") || not (has_prefix name (legacy_prefix purpose))
        then outside
        else named name
    asset_name purpose outside = outside
    asset_name purpose unreadable = unreadable

    -- The container of public or of private blobs.
    abbrev pub container_of : Bool → String
    container_of is_public = if is_public then public_container else private_container

    -- `AssetBlobNameFromURL`
    unfoldable pub asset_blob_name : String → ℕ → Bool → BlobName
    unfolding blob_name_from_url asset_name
    asset_blob_name file_url purpose is_public =
        asset_name purpose (blob_name_from_url file_url (container_of is_public))

    -- `ClassifyImageBlobName`
    unfoldable pub classify : String → ImageKind
    unfolding product_path_prefix has_prefix trim_prefix
    classify name =
        let relative = trim_prefix name product_path_prefix in
        if has_prefix relative "main_image/"
        then main_kind
        else if has_prefix relative "sub_images/"
        then sub_kind
        else unknown_kind

  -- `DeleteImageBlob`, `DeleteFileBlob`
  unfoldable pub delete_image_blob : String → M CatalogStore (Unit {0})
  unfolding delete_blob
  delete_image_blob name = delete_blob public_container name

  unfoldable pub delete_file_blob : String → M CatalogStore (Unit {0})
  unfolding delete_blob
  delete_file_blob name = delete_blob private_container name

  -- `DeleteAssetBlob`
  unfoldable pub delete_asset_blob : String → Bool → M CatalogStore (Unit {0})
  unfolding delete_image_blob delete_file_blob
  delete_asset_blob name is_public =
      if is_public then delete_image_blob name else delete_file_blob name

  upload_url : String → Option Url → M CatalogStore UploadUrl
  unfolding blob_endpoint
  upload_url container none = throw provider_failed
  upload_url container (some u) =
      pure
        (record { blob_endpoint = blob_endpoint; container = container; sas_token = u.raw_query })

  signed_upload : String → Option String → M CatalogStore UploadUrl
  unfolding upload_url
  signed_upload container none = throw provider_failed
  signed_upload container (some sas) = upload_url container (parse_url sas)

  -- `issueContainerUploadURL`
  unfoldable pub issue_upload_url : String → M CatalogStore UploadUrl
  unfolding ensure_containers signed_upload ◌>>=◌
  issue_upload_url container = do ensure_containers; signed_upload container (sign container none)

  -- `IssueAssetUploadURL`; of a public container it is `IssueImageUploadURL`, of the private one
  -- `IssueFileUploadURL`.
  unfoldable pub issue_asset_upload_url : Bool → M CatalogStore UploadUrl
  unfolding issue_upload_url
  issue_asset_upload_url is_public =
      if is_public then issue_upload_url public_container else issue_upload_url private_container

  -- `IssueDownloadURL`
  unfoldable pub issue_download_url : String → Option String
  issue_download_url name = sign private_container (some name)

  strip : String → Option Url → String
  strip raw none = raw
  strip raw (some u) = print_url (record u { raw_query = ""; fragment = "" })

  -- `stripQuery` of grpcserver/product_server.go.
  unfoldable pub strip_query : String → String
  unfolding strip
  strip_query raw = strip raw (parse_url raw)
