-- ===== src/Payment.antt =====
-- services/payment-api: payments, their provider, the points of users, and refunds.
pub mod Calls
pub mod Model
pub mod Provider
pub mod Chain
pub mod Points
pub mod Rows
pub mod Command
pub mod PointPayment
pub mod External
pub mod Reversal
pub mod Paid
pub mod Events
pub mod Create
pub mod Reconcile
pub mod Server
pub mod Refunds
pub mod Direct
pub mod PointServer
pub mod Publisher
pub mod Webhook
pub mod Once
pub mod Tests
pub mod Trials
pub mod Samples
