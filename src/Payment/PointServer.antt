-- ===== src/Payment/PointServer.antt =====
-- services/payment-api/internal/grpcserver/point_server.go: the handlers of `PointService`.
use pingu_coin.Base.{ℕ, String, List, Option, none, some, ◌==◌, if◌then◌else◌}
use pingu_coin.Base.Int.{ℤ, pos, leb_ℤ, neg64}
use pingu_coin.Base.Text.{◌is◌, trim_space}
use pingu_coin.Base.Store.{Result, ok, err, Error, M, pure, ◌>>=◌, attempt}
use pingu_coin.Base.Rpc.{invalid_argument, failed_precondition, Reply, reply, refuse}
use pingu_coin.Payment.Model.{PointAccount, PointTransaction, PaymentStore, kind_credit, kind_debit}
use pingu_coin.Payment.Points.{get_account, adjust_atomic, list_transactions}
use pingu_coin.Payment.Server.{internal_error, or_internal}

-- A user without an account has none of the points.
unfoldable pub account_answer : ℕ → Result PointAccount → Reply PointAccount
account_answer user (ok account) = reply account
account_answer user (err Error.record_not_found) =
    reply (record { user_id = user; balance = pos 0 })
account_answer user (err _) = internal_error

unfoldable pub read_account : ℕ → M PaymentStore (Reply PointAccount)
unfolding get_account account_answer ◌>>=◌
read_account user = do r ← attempt (get_account user); pure (account_answer user r)

-- `GetPointAccount`
unfoldable pub get_point_account : ℕ → M PaymentStore (Reply PointAccount)
unfolding read_account
get_point_account user =
    if user == 0 then pure (refuse invalid_argument "user_id is required") else read_account user

-- The first check that a request for points fails, if any.
unfoldable pub points_fault : ℕ → ℤ → String → Option String
unfolding trim_space
points_fault user amount reason =
    if user == 0
    then some "user_id is required"
    else if leb_ℤ amount (pos 0)
    then some "amount must be greater than zero"
    else if trim_space reason is ""
    then some "reason is required"
    else none

unfoldable pub debit_answer : Result PointTransaction → Reply PointTransaction
debit_answer (ok row) = reply row
debit_answer (err Error.insufficient_points) = refuse failed_precondition "insufficient points"
debit_answer (err _) = internal_error

module _ (sha256 : List ℕ → List ℕ) where
  -- `ListPointTransactions`
  unfoldable pub list_point_transactions : ℕ → M PaymentStore (Reply (List PointTransaction))
  unfolding list_transactions ◌>>=◌
  list_point_transactions user = do
    r ← attempt (list_transactions sha256 user)
    pure (or_internal r)

  unfoldable pub credit_checked :
      ℕ → ℤ → String → Option String → M PaymentStore (Reply PointTransaction)
  unfolding adjust_atomic ◌>>=◌
  credit_checked user amount reason (some fault) = pure (refuse invalid_argument fault)
  credit_checked user amount reason none = do
    r ← attempt (adjust_atomic sha256 user amount kind_credit reason none)
    pure (or_internal r)

  -- `creditPoints`
  unfoldable pub credit_points : ℕ → ℤ → String → M PaymentStore (Reply PointTransaction)
  unfolding points_fault credit_checked
  credit_points user amount reason =
      credit_checked user amount reason (points_fault user amount reason)

  unfoldable pub debit_checked :
      ℕ → ℤ → String → Option String → M PaymentStore (Reply PointTransaction)
  unfolding adjust_atomic debit_answer ◌>>=◌
  debit_checked user amount reason (some fault) = pure (refuse invalid_argument fault)
  debit_checked user amount reason none = do
    r ← attempt (adjust_atomic sha256 user (neg64 amount) kind_debit reason none)
    pure (debit_answer r)

  -- `debitPoints`
  unfoldable pub debit_points : ℕ → ℤ → String → M PaymentStore (Reply PointTransaction)
  unfolding points_fault debit_checked
  debit_points user amount reason =
      debit_checked user amount reason (points_fault user amount reason)
