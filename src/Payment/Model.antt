-- ===== src/Payment/Model.antt =====
-- services/payment-api/internal/model: the rows of the payment service. The columns of time are
-- left out, but for the one that the reconciler selects by.
use pingu_coin.Flow.{KafkaRecord}
use pingu_coin.Payment.Calls.{ProviderCall}
use pingu_coin.Base.{ℕ, String, List, Option, Bool}
use pingu_coin.Base.Int.{ℤ}

pub data PaymentStatus : Type 0 where
  pending processing succeeded failed canceled refunded partially_refunded : PaymentStatus

pub data SourceStatus : Type 0 where
  pending authorized captured failed canceled : SourceStatus

pub data RefundStatus : Type 0 where
  pending succeeded failed : RefundStatus

abbrev pub method_point : String
method_point = "point"

abbrev pub method_card : String
method_card = "card"

abbrev pub method_credit_card : String
method_credit_card = "credit_card"

abbrev pub method_bank_transfer : String
method_bank_transfer = "bank_transfer"

abbrev pub purpose_purchase : String
purpose_purchase = "purchase"

abbrev pub purpose_point_topup : String
purpose_point_topup = "point_topup"

pub record Payment : Type 0 where
  pub id : ℕ
  pub user_id : ℕ
  pub product_id : ℕ
  pub amount : ℤ
  pub currency : String
  pub payment_method : String
  pub purpose : String
  pub status : PaymentStatus
  pub idempotency_key : String

pub record PaymentSource : Type 0 where
  pub id : ℕ
  pub payment_id : ℕ
  pub provider : String
  pub provider_reference : String
  pub status : SourceStatus
  pub failure_reason : String
  pub action_url : String
  pub order_payload : String
  pub created_at : ℕ

pub record PointAccount : Type 0 where
  pub user_id : ℕ
  pub balance : ℤ

abbrev pub kind_credit : String
kind_credit = "credit"

abbrev pub kind_debit : String
kind_debit = "debit"

abbrev pub kind_payment : String
kind_payment = "payment"

abbrev pub kind_refund : String
kind_refund = "refund"

-- The column `type` is the field `kind`.
pub record PointTransaction : Type 0 where
  pub id : ℕ
  pub user_id : ℕ
  pub amount : ℤ
  pub kind : String
  pub payment_id : Option ℕ
  pub reason : String
  pub balance_after : ℤ
  pub chain_sequence : ℕ
  pub previous_hash : String
  pub transaction_hash : String

pub record Refund : Type 0 where
  pub id : ℕ
  pub payment_id : ℕ
  pub amount : ℤ
  pub reason : String
  pub status : RefundStatus

pub record OutboxEvent : Type 0 where
  pub id : ℕ
  pub aggregate_id : ℕ
  pub topic : String
  pub key : String
  pub payload : String
  pub attempts : ℕ
  pub published : Bool

-- The receipt of a webhook.
pub record Receipt : Type 0 where
  pub provider : String
  pub event_id : String

-- The tables, with the sequences of their ids.
pub record PaymentStore : Type 0 where
  pub payments : List Payment
  pub next_payment : ℕ
  pub sources : List PaymentSource
  pub next_source : ℕ
  pub accounts : List PointAccount
  pub transactions : List PointTransaction
  pub next_transaction : ℕ
  pub refunds : List Refund
  pub next_refund : ℕ
  pub outbox : List OutboxEvent
  pub next_event : ℕ
  pub receipts : List Receipt
  -- The requests that the provider was sent, in their order.
  pub calls : List ProviderCall
  -- The messages that the broker has acknowledged.
  pub acknowledged : List KafkaRecord
