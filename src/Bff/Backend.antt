-- ===== src/Bff/Backend.antt =====
-- What the gateway keeps and whom it calls: services/bff/internal/model/order.go, the requests of
-- internal/httpapi with their user (internal/reqcontext), and the clients of the other services.
use pingu_coin.Base.{ℕ, String, List, [], ◌∷◌, ◌++◌, Bool, Option}
use pingu_coin.Base.Int.{ℤ}
use pingu_coin.Base.Store.{M, aside}
use pingu_coin.Media.Catalog.Model.{Product}
use pingu_coin.Order.Server.{CreateOrderRequest}
use pingu_coin.Bff.Errors.{AppError, RpcError}

pub record Order : Type 0 where
  pub id : ℕ
  pub user_id : ℕ
  pub product_id : ℕ
  pub quantity : ℤ
  pub unit_price : ℤ
  pub total_amount : ℤ
  pub payment_id : ℕ
  pub status : String
  pub idempotency_key : String

-- `reqcontext.Claims`
pub record Claims : Type 0 where
  pub user_id : ℕ
  pub clerk_user_id : String
  pub email : String
  pub name : String

-- The user that the middleware has found, the `Idempotency-Key` header, the `id` of the path, the
-- parameters of the query, and the body where encoding/json decodes it.
pub record HttpRequest (B : Type 0) : Type 0 where
  pub user : Option Claims
  pub key : String
  pub path_id : String
  pub query : String → String
  pub body : Option B

-- What is written: a status with a body, an error, or 204.
pub data Response (A : Type 0) : Type 0 where
  json : ℕ → A → Response A
  error : AppError → Response A
  no_content : Response A

pub record PaymentRequest : Type 0 where
  pub user_id : ℕ
  pub product_id : ℕ
  pub amount : ℤ
  pub currency : String
  pub payment_method : String
  pub idempotency_key : String
  pub purpose : String

pub record PaymentMessage : Type 0 where
  pub id : ℕ
  pub user_id : ℕ
  pub amount : ℤ
  pub currency : String
  pub status : String
  pub purpose : String
  pub action_url : String

pub record StockRequest : Type 0 where
  pub product_id : ℕ
  pub amount : ℤ
  pub reason : String
  pub idempotency_key : String

-- A product as it is created or changed.
pub record ProductMessage : Type 0 where
  pub id : ℕ
  pub user_id : ℕ
  pub category_id : ℕ
  pub name : String
  pub description : String
  pub image_url : String
  pub file_url : String
  pub price : ℤ
  pub status : String

pub record ImageMessage : Type 0 where
  pub user_id : ℕ
  pub product_id : ℕ
  pub file_url : String
  pub description : String
  pub sort_order : ℤ

pub record AssetMessage : Type 0 where
  pub user_id : ℕ
  pub product_id : ℕ
  pub purpose_id : ℕ
  pub file_url : String
  pub original_filename : String
  pub content_type : String
  pub file_size : ℤ
  pub description : String
  pub sort_order : ℤ
  pub is_primary : Bool
  pub metadata : String

pub record CreditMessage : Type 0 where
  pub user_id : ℕ
  pub amount : ℤ
  pub reason : String

-- The calls of the other services: those of media-api, of payment-api and of order-api.
pub data RemoteCall : Type 0 where
  list_products : Option ℕ → RemoteCall
  get_product : ℕ → RemoteCall
  create_product : ProductMessage → RemoteCall
  update_product : ProductMessage → RemoteCall
  delete_product : ℕ → RemoteCall
  image_upload_url : ℕ → ℕ → RemoteCall
  asset_upload_url : ℕ → ℕ → ℕ → RemoteCall
  confirm_image : ImageMessage → RemoteCall
  delete_image : ImageMessage → RemoteCall
  confirm_asset : AssetMessage → RemoteCall
  delete_asset : ℕ → ℕ → RemoteCall
  list_assets : ℕ → Option ℕ → RemoteCall
  get_asset : ℕ → RemoteCall
  asset_download_url : ℕ → RemoteCall
  adjust_stock : StockRequest → RemoteCall
  get_user_by_clerk_id : String → RemoteCall
  ensure_user : String → String → String → RemoteCall
  create_payment : PaymentRequest → RemoteCall
  get_payment : ℕ → RemoteCall
  list_points : ℕ → RemoteCall
  credit_points : CreditMessage → RemoteCall
  get_points : ℕ → RemoteCall
  create_order : CreateOrderRequest → RemoteCall
  list_orders : ℕ → RemoteCall
  get_order : ℕ → ℕ → RemoteCall
  has_paid_order : ℕ → ℕ → RemoteCall

pub data Answer (A : Type 0) : Type 0 where
  answer : A → Answer A
  fault : RpcError → Answer A

-- What the order handler calls: the answer to a call, given the calls before it.
pub record Backend : Type 0 where
  pub product : List RemoteCall → ℕ → Answer Product
  pub stock : List RemoteCall → StockRequest → Answer (Unit {0})
  pub payment : List RemoteCall → PaymentRequest → Answer PaymentMessage

-- How a request for an order ended, for the metrics.
pub data OrderResult : Type 0 where
  created replayed rejected out_of_stock insufficient_point failed : OrderResult

-- The orders with the sequence of their ids, the calls made and the results counted.
pub record BffStore : Type 0 where
  pub orders : List Order
  pub next_order : ℕ
  pub calls : List RemoteCall
  pub counted : List (OrderResult × ℤ)

-- The store with a call made.
abbrev pub with_call : RemoteCall → BffStore → BffStore
with_call c s = record s { calls = s.calls ++ c ∷ [] }

unfoldable pub call :
    {A : Type 0} → (List RemoteCall → Answer A) → RemoteCall → M BffStore (Answer A)
unfolding aside
call f c = aside (λ s. (f s.calls, with_call c s))

-- The store with a result counted.
abbrev pub with_result : OrderResult → ℤ → BffStore → BffStore
with_result r amount s = record s { counted = s.counted ++ (r, amount) ∷ [] }

-- `metrics.RecordOrder`
unfoldable pub record_order : OrderResult → ℤ → M BffStore (Unit {0})
unfolding aside
record_order r amount = aside (λ s. (tt, with_result r amount s))
