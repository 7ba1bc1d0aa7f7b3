-- ===== src/Payment/Calls.antt =====
-- services/payment-api/internal/paymentmethod/stripe.go: the requests to the provider, and what it
-- answers.
use pingu_coin.Base.{String}
use pingu_coin.Base.Int.{ℤ}

pub record ChargeRequest : Type 0 where
  pub amount : ℤ
  pub currency : String
  pub idempotency_key : String
  pub return_url : String
  pub payment_method : String

pub record ChargeResult : Type 0 where
  pub id : String
  pub status : String
  pub action_url : String

pub record RefundRequest : Type 0 where
  pub payment_intent_id : String
  pub amount : ℤ
  pub idempotency_key : String

-- A request that was sent, by its path.
pub data ProviderCall : Type 0 where
  create_intent : ChargeRequest → ProviderCall
  capture : String → ProviderCall
  cancel : String → ProviderCall
  refund : RefundRequest → ProviderCall
