-- ===== src/Bff/Points.antt =====
-- services/bff/internal/httpapi/point_handler.go.
use pingu_coin.Base.{
  ℕ, String, List, [], ◌∷◌, Bool, ◌||◌, not, Option, none, some, ◌==◌, ◌%◌, ◌^◌, if◌then◌else◌,
}
use pingu_coin.Base.Int.{ℤ, pos, ltb_ℤ}
use pingu_coin.Base.Text.{◌is◌, ◌<>◌, trim_space, parse_uint}
use pingu_coin.Base.Store.{pure, ◌>>=◌}
use pingu_coin.Bff.Errors.{invalid_error, missing_error}
use pingu_coin.Bff.Backend.{
  Claims, HttpRequest, json, PaymentRequest, PaymentMessage, CreditMessage, RemoteCall, Answer,
  call,
}
use pingu_coin.Bff.Handlers.{Handler, refuse_with, with_user, with_answer}

-- `welcomeBonusPoints`
abbrev pub welcome_bonus_points : ℕ
welcome_bonus_points = 1600

-- `paymentResponse`
pub record PaymentResponse : Type 0 where
  pub id : ℕ
  pub amount : ℤ
  pub currency : String
  pub status : String
  pub purpose : String
  pub action_url : String

-- `pointTransactionResponse`; the time is left out.
pub record PointTransactionResponse : Type 0 where
  pub id : ℕ
  pub amount : ℤ
  pub kind : String
  pub reason : String
  pub balance_after : ℤ
  pub chain_sequence : ℕ
  pub previous_hash : String
  pub transaction_hash : String

-- `pointsResponse`
pub record PointsResponse : Type 0 where
  pub balance : ℤ
  pub transactions : List PointTransactionResponse

-- The payment service: its answers given the calls before.
pub record PaymentClient : Type 0 where
  pub create : List RemoteCall → PaymentRequest → Answer PaymentMessage
  pub payment : List RemoteCall → ℕ → Answer PaymentMessage
  pub transactions : List RemoteCall → ℕ → Answer (List PointTransactionResponse)
  pub credit : List RemoteCall → CreditMessage → Answer (Unit {0})
  pub balance : List RemoteCall → ℕ → Answer ℤ

-- The body of `TopUpPoints`.
pub record TopUpBody : Type 0 where
  pub amount : ℤ
  pub payment_method : String

unfoldable pub point_payment_response : PaymentMessage → PaymentResponse
point_payment_response p = record {
  id = p.id;
  amount = p.amount;
  currency = p.currency;
  status = p.status;
  purpose = p.purpose;
  action_url = p.action_url;
}

abbrev pub is_money : String → Bool
is_money method = method is "card" || method is "credit_card" || method is "bank_transfer"

abbrev pub top_up_request : Claims → String → TopUpBody → PaymentRequest
top_up_request claims key b = record {
  user_id = claims.user_id % 2 ^ 32;
  product_id = 0;
  amount = b.amount;
  currency = "JPY";
  payment_method = b.payment_method;
  idempotency_key = "topup:" <> key;
  purpose = "point_topup";
}

module _ (client : PaymentClient) where
  unfoldable pub ask_top_up : PaymentRequest → Handler PaymentResponse
  unfolding call with_answer point_payment_response ◌>>=◌
  ask_top_up r = do
    a ← call (λ calls. client.create calls r) (RemoteCall.create_payment r)
    with_answer a (λ p. pure (json 202 (point_payment_response p)))

  unfoldable pub top_up_decoded : Claims → String → Option TopUpBody → Handler PaymentResponse
  unfolding ask_top_up
  top_up_decoded claims key none =
      refuse_with (invalid_error "amount must be between 100 and 100000")
  top_up_decoded claims key (some b) =
      if ltb_ℤ b.amount (pos 100) || ltb_ℤ (pos 100000) b.amount
      then refuse_with (invalid_error "amount must be between 100 and 100000")
      else if not (is_money b.payment_method)
      then refuse_with (invalid_error "unsupported top-up payment_method")
      else ask_top_up (top_up_request claims key b)

  unfoldable pub top_up_keyed : String → Option TopUpBody → Claims → Handler PaymentResponse
  unfolding top_up_decoded
  top_up_keyed key body claims =
      if key is ""
      then refuse_with (invalid_error "Idempotency-Key header is required")
      else top_up_decoded claims key body

  -- `TopUpPoints`
  unfoldable pub top_up_points : HttpRequest TopUpBody → Handler PaymentResponse
  unfolding with_user trim_space top_up_keyed
  top_up_points r = with_user r.user (top_up_keyed (trim_space r.key) r.body)

  unfoldable pub show_payment : Claims → PaymentMessage → Handler PaymentResponse
  unfolding point_payment_response
  show_payment claims p =
      if p.user_id == claims.user_id % 2 ^ 32
      then pure (json 200 (point_payment_response p))
      else refuse_with (missing_error "payment")

  unfoldable pub get_payment_of : Option ℕ → Claims → Handler PaymentResponse
  unfolding call with_answer show_payment ◌>>=◌
  get_payment_of none claims = refuse_with (invalid_error "invalid payment id")
  get_payment_of (some id) claims = do
    a ← call (λ calls. client.payment calls id) (RemoteCall.get_payment id)
    with_answer a (show_payment claims)

  -- `GetPayment`
  unfoldable pub get_payment : HttpRequest (Unit {0}) → Handler PaymentResponse
  unfolding with_user parse_uint get_payment_of
  get_payment r = with_user r.user (get_payment_of (parse_uint 32 r.path_id))

  module _ (user : ℕ) where
    abbrev pub welcome : CreditMessage
    welcome = record { user_id = user; amount = pos welcome_bonus_points; reason = "ウェルカムボーナス" }

    unfoldable pub show_points : List PointTransactionResponse → Handler PointsResponse
    unfolding call with_answer ◌>>=◌
    show_points ts = do
      a ← call (λ calls. client.balance calls user) (RemoteCall.get_points user)
      with_answer a (λ balance. pure (json 200 (record { balance = balance; transactions = ts })))

    unfoldable pub points_again : Handler PointsResponse
    unfolding call with_answer show_points ◌>>=◌
    points_again = do
      a ← call (λ calls. client.transactions calls user) (RemoteCall.list_points user)
      with_answer a show_points

    unfoldable pub points_listed : List PointTransactionResponse → Handler PointsResponse
    unfolding call with_answer show_points points_again ◌>>=◌
    points_listed [] = do
      a ← call (λ calls. client.credit calls welcome) (RemoteCall.credit_points welcome)
      with_answer a (λ _. points_again)
    points_listed (t ∷ ts) = show_points (t ∷ ts)

    unfoldable pub points_of : Handler PointsResponse
    unfolding call with_answer points_listed ◌>>=◌
    points_of = do
      a ← call (λ calls. client.transactions calls user) (RemoteCall.list_points user)
      with_answer a points_listed

  -- `GetPoints`
  unfoldable pub get_points : HttpRequest (Unit {0}) → Handler PointsResponse
  unfolding with_user points_of
  get_points r = with_user r.user (λ claims. points_of (claims.user_id % 2 ^ 32))
