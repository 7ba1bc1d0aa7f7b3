-- ===== src/Media/Catalog/Tests.antt =====
-- Uploads of one product, and a user who was deleted.
use pingu_coin.Base.{ℕ, [], ◌∷◌, some, false, ◌≡◌, refl, arith}
use pingu_coin.Base.Int.{pos}
use pingu_coin.Base.Text.{trim_space}
use pingu_coin.Base.Store.{ok, calm, ◌>>=◌}
use pingu_coin.Base.Rpc.{refuse, internal}
use pingu_coin.Media.Catalog.Model.{User, CatalogStore}
use pingu_coin.Media.Catalog.Storage.{BlobStorage, blob_name_from_url}
use pingu_coin.Media.Catalog.Uploads.{
  UploadRequest, confirm_image_upload, delete_image_upload, confirm_file_upload, delete_file_upload,
}
use pingu_coin.Media.Catalog.Uploads.Guarded.{IsGuarded, uploads-Guarded}
use pingu_coin.Media.Catalog.Uploads.Isolated.{blob_name_from_url-isolated}
use pingu_coin.Media.Catalog.Users.{delete_user, delete_user_row, ensure_user}
use pingu_coin.Media.Catalog.Users.Deleted.{ensure_user-deleted}

-- Addresses with nothing but a path.
abbrev storage : BlobStorage
storage = record {
  endpoint = "/blobs/";
  public_container = "public";
  private_container = "private";
  env = "dev";
  parse_url =
      λ raw. some (record { scheme = ""; host = ""; path = raw; raw_query = ""; fragment = "" });
  print_url = λ u. u.path;
  sign = λ c _. some c;
}

abbrev cover : UploadRequest
cover = record {
  user_id = 1;
  product_id = 3;
  file_url = "/blobs/public/dev/products/1/3/main_image/a.png";
  description = "";
  sort_order = pos 0;
}

uploads-Guarded_example :
    IsGuarded storage cover (confirm_image_upload storage cover)
    × IsGuarded storage cover (delete_image_upload storage cover)
    × IsGuarded storage cover (confirm_file_upload storage cover)
    × IsGuarded storage cover (delete_file_upload storage cover)
uploads-Guarded_example = uploads-Guarded storage cover

blob_name_from_url-isolated_example : (◌≡◌ {A = ℕ} 1 1) × (◌≡◌ {A = ℕ} 3 3)
unfolding blob_name_from_url
blob_name_from_url-isolated_example =
    blob_name_from_url-isolated storage 1 3 1 3 "/blobs/public/dev/products/1/3/main_image/a.png"
      "/blobs/private/dev/products/1/3/main_image/a.png" "public" "private"
      "dev/products/1/3/main_image/a.png" (omega arith, omega arith, omega arith, omega arith) refl
      refl

abbrev pingu : User
pingu = record {
  id = 1;
  clerk_user_id = "user_1";
  email = "p@example.com";
  name = "Pingu";
  deleted = false;
}

abbrev catalog : CatalogStore
catalog = record {
  products = [];
  next_product = 1;
  details = [];
  next_detail = 1;
  users = pingu ∷ [];
  next_user = 2;
  purposes = [];
  assets = [];
  next_asset = 1;
  containers = [];
  blobs = [];
}

ensure_user-deleted_example :
    ((delete_user 1 >>= λ _. ensure_user "user_1" "p@example.com" "Pingu") (calm catalog)
      ≡ (ok (refuse internal "internal server error"), calm (delete_user_row 1 catalog)))
    × (ensure_user "user_1" "p@example.com" "Pingu" (calm (delete_user_row 1 catalog))
        ≡ (ok (refuse internal "internal server error"), calm (delete_user_row 1 catalog)))
unfolding trim_space
ensure_user-deleted_example =
    ensure_user-deleted "user_1" "p@example.com" "Pingu" 1 catalog refl refl (refl, tt)
