-- ===== src/Payment/Command.antt =====
-- services/payment-api/internal/application/payment_usecase.go: what a payment is asked for by,
-- what it is answered by, and the checks.
use pingu_coin.Base.{
  ℕ, String, Bool, true, false, not, ◌&&◌, ◌||◌, Option, none, some, ◌==◌, if◌then◌else◌, ◌≡◌,
  arith,
}
use pingu_coin.Base.Int.{ℤ, pos, leb_ℤ}
use pingu_coin.Base.Text.{◌is◌, ◌<>◌, is→eq, eq→is}
use pingu_coin.Flow.{OrderCreated}
use pingu_coin.Payment.Model.{
  Payment, PaymentStatus, method_point, method_card, method_credit_card, method_bank_transfer,
  purpose_purchase, purpose_point_topup,
}

pub record CreatePaymentCommand : Type 0 where
  pub user_id : ℕ
  pub product_id : ℕ
  pub amount : ℤ
  pub currency : String
  pub payment_method : String
  pub idempotency_key : String
  pub order : Option OrderCreated
  pub purpose : String

-- The errors that a payment is rejected with, each with what its text has behind the colon.
pub data Rejection : Type 0 where
  invalid : String → Rejection
  few_points : Rejection
  unsupported_method : String → Rejection
  provider_unavailable : String → Rejection
  previously_failed : Rejection

unfoldable pub rejection_text : Rejection → String
rejection_text (invalid detail) = "invalid payment: " <> detail
rejection_text few_points = "insufficient points"
rejection_text (unsupported_method detail) = "unsupported payment method: " <> detail
rejection_text (provider_unavailable detail) = "payment provider unavailable: " <> detail
rejection_text previously_failed = "payment previously failed"

pub record CreatePaymentResult : Type 0 where
  pub payment : Option Payment
  pub replayed : Bool
  pub rejected : Option Rejection
  pub action_url : String

abbrev pub is_external : String → Bool
is_external m = m is method_card || m is method_credit_card || m is method_bank_transfer

-- `validate`
unfoldable pub validate : CreatePaymentCommand → Option Rejection
validate c =
    if c.user_id == 0
    then some (invalid "user_id is required")
    else if c.product_id == 0 && not (c.purpose is purpose_point_topup)
    then some (invalid "product_id is required")
    else if leb_ℤ c.amount (pos 0)
    then some (invalid "amount must be greater than zero")
    else if c.currency is ""
    then some (invalid "currency is required")
    else if c.payment_method is ""
    then some (invalid "payment_method is required")
    else if c.idempotency_key is ""
    then some (invalid "idempotency_key is required")
    else if not (c.purpose is purpose_purchase) && not (c.purpose is purpose_point_topup)
    then some (invalid "invalid purpose")
    else if (c.payment_method is method_point)
        && (not (c.currency is "POINT") || not (c.purpose is purpose_purchase))
    then some (invalid "point payments require currency POINT and purpose purchase")
    else if is_external c.payment_method && not (c.currency is "JPY")
    then some (invalid "external payments require currency JPY")
    else none

-- `newPayment`
abbrev pub new_payment : CreatePaymentCommand → PaymentStatus → Payment
new_payment c status = record {
  id = 0;
  user_id = c.user_id;
  product_id = c.product_id;
  amount = c.amount;
  currency = c.currency;
  payment_method = c.payment_method;
  purpose = c.purpose;
  status = status;
  idempotency_key = c.idempotency_key;
}

-- What a command that passes `validate` satisfies.
pub record IsPayable (c : CreatePaymentCommand) : Type 0 where
  pub buyer : (c.user_id == 0) ≡ false
  pub goods : (c.product_id == 0) ≡ true → c.purpose ≡ purpose_point_topup
  pub positive : leb_ℤ c.amount (pos 0) ≡ false
  pub keyed : (c.idempotency_key is "") ≡ false
  pub points_buy :
      c.payment_method ≡ method_point → (c.currency ≡ "POINT") × (c.purpose ≡ purpose_purchase)
  pub yen : is_external c.payment_method ≡ true → c.currency ≡ "JPY"

-- A command that passes the checks has a buyer, a positive amount and a key, names a product unless
-- it is a top-up, buys in POINT where it pays with points, and pays in JPY where it pays with a card
-- or by bank transfer.
pub validate-IsPayable : (c : CreatePaymentCommand) → validate c ≡ none → IsPayable c
unfolding validate
validate-IsPayable c h = record {
  buyer = ground arith;
  goods = λ e. is→eq c.purpose purpose_point_topup (ground arith);
  positive = ground arith;
  keyed = ground arith;
  points_buy = λ e. (
    is→eq c.currency "POINT" (ground (arith, eq→is c.payment_method method_point e)),
    is→eq c.purpose purpose_purchase (ground (arith, eq→is c.payment_method method_point e)),
  );
  yen = λ e. is→eq c.currency "JPY" (ground arith);
}
