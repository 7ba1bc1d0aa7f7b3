-- ===== src/Bff/Tests.antt =====
-- Requests of one buyer for one product.
use pingu_coin.Base.{[], ◌∷◌, none, some, false, ◌≡◌, refl, ◌^◌, ◌*◌, ◌+◌, arith}
use pingu_coin.Base.Int.{pos, mul64, sub_ℕ}
use pingu_coin.Base.Text.{trim_space}
use pingu_coin.Base.Store.{ok, calm}
use pingu_coin.Base.Store.Laws.{Leads}
use pingu_coin.Media.Catalog.Model.{Product, ProductAsset}
use pingu_coin.Bff.Errors.{no_status}
use pingu_coin.Bff.Backend.{
  Order, Claims, HttpRequest, json, PaymentMessage, Answer, answer, fault, Backend, BffStore,
}
use pingu_coin.Bff.Orders.{
  CreateOrderBody, to_order_response, with_defaults, taking, charging, create_order,
}
use pingu_coin.Bff.Orders.Booked.{row}
use pingu_coin.Bff.Orders.Placed.{Placed, create_order-Placed}
use pingu_coin.Bff.Orders.Completion.{with_order, create_order-takes_wrapped}
use pingu_coin.Bff.Catalog.{MediaClient, legacy_orders}
use pingu_coin.Bff.Assets.{get_asset_download}
use pingu_coin.Bff.Assets.Entitled.{Entitled, get_asset_download-Entitled}

abbrev pub buyer : Claims
buyer = record { user_id = 7; clerk_user_id = "user_7"; email = "p@example.com"; name = "Pingu" }

abbrev pub fish : Product
fish = record {
  id = 3;
  user_id = 1;
  category_id = 1;
  name = "fish";
  description = "";
  image_url = "";
  file_url = "";
  price = pos 5;
  status = "published";
  version = 1;
  deleted = false;
}

abbrev pub receipt : PaymentMessage
receipt = record {
  id = 11;
  user_id = 7;
  amount = pos 10;
  currency = "POINT";
  status = "succeeded";
  purpose = "";
  action_url = "";
}

abbrev services : Backend
services = record {
  product = λ _ _. answer fish;
  stock = λ _ _. answer tt;
  payment = λ _ _. answer receipt;
}

abbrev pub new_gateway : BffStore
new_gateway = record { orders = []; next_order = 1; calls = []; counted = [] }

-- 2^32 + 3 pieces.
abbrev crate : CreateOrderBody
crate = record {
  product_id = 3;
  quantity = pos (2 ^ 32 * 1 + 3);
  payment_method = "point";
  currency = "";
}

abbrev buying : HttpRequest CreateOrderBody
buying = record { user = some buyer; key = "k1"; path_id = ""; query = λ _. ""; body = some crate }

create_order-Placed_example :
    Leads (create_order services buying) new_gateway (Placed services buying new_gateway)
create_order-Placed_example = create_order-Placed services buying new_gateway

create_order-takes_wrapped_example :
    (create_order services buying (calm new_gateway) ≡ (
      ok (
          json 201 (
            to_order_response (
              row services buyer
                (trim_space "k1")
                (with_defaults crate)
                new_gateway
                (pos 5)
                receipt))),
      calm (with_order services buying new_gateway buyer crate fish receipt),
    ))
    × ((row services buyer
          (trim_space "k1")
          (with_defaults crate)
          new_gateway
          (pos 5)
          receipt).quantity
        ≡ pos (2 ^ 32 * 1 + 3))
    × ((charging (trim_space "k1") (with_defaults crate) buyer (pos 5)).amount
        ≡ mul64 (pos 5) (pos (2 ^ 32 * 1 + 3)))
    × ((taking (trim_space "k1") (with_defaults crate)).amount ≡ sub_ℕ 0 3)
unfolding trim_space with_defaults
create_order-takes_wrapped_example =
    create_order-takes_wrapped services buying new_gateway buyer crate fish receipt 1 3
      (omega arith) (omega arith) refl refl refl refl refl refl refl refl refl refl

abbrev others_order : Order
others_order = record {
  id = 4;
  user_id = 8;
  product_id = 3;
  quantity = pos 1;
  unit_price = pos 5;
  total_amount = pos 5;
  payment_id = 9;
  status = "paid";
  idempotency_key = "k0";
}

abbrev old_gateway : BffStore
old_gateway = record new_gateway { orders = others_order ∷ [] }

abbrev asking : HttpRequest (Unit {0})
asking = record { user = some buyer; key = ""; path_id = "4"; query = λ _. ""; body = none }

abbrev dozen : CreateOrderBody
dozen = record { product_id = 3; quantity = pos 12; payment_method = " point "; currency = " " }

abbrev silent : {A : Type 0} → Answer A
silent = fault no_status

abbrev manual : ProductAsset
manual = record {
  id = 4;
  product_id = 3;
  purpose_id = 3;
  purpose = record { id = 3; name = "product_file"; is_public = false };
  storage_url = "https://blobs/private/dev/products/1/3/product_file/a.pdf";
  original_filename = "a.pdf";
  content_type = "application/pdf";
  file_size = pos 1;
  description = "";
  sort_order = pos 0;
  is_primary = false;
  metadata = "{}";
}

abbrev media : MediaClient
media = record {
  list = λ _ _. silent;
  product = λ _ _. answer fish;
  create = λ _ _. silent;
  update = λ _ _. silent;
  delete = λ _ _. silent;
  image_target = λ _ _ _. silent;
  file_target = λ _ _ _ _. silent;
  confirm_image = λ _ _. silent;
  delete_image = λ _ _. silent;
  confirm_asset = λ _ _. silent;
  delete_asset = λ _ _ _. silent;
  assets = λ _ _ _. silent;
  asset = λ _ _. answer manual;
  download_url = λ _ _. answer "https://blobs/private/signed";
}

get_asset_download-Entitled_example :
    Leads
      (get_asset_download media legacy_orders asking)
      old_gateway
      (Entitled media legacy_orders asking old_gateway)
get_asset_download-Entitled_example =
    get_asset_download-Entitled media legacy_orders asking old_gateway
