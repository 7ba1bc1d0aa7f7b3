-- ===== src/Payment/Points.antt =====
-- services/payment-api/internal/repository/point_repository.go: accounts and ledgers of points.
pub mod Audit
pub mod Ledgered
pub mod Posting
pub mod Growth
pub mod Opening
pub mod Adjust
pub mod Completion
pub mod Keeps
use pingu_coin.Base.{
  ℕ, suc, ◌+◌, ◌%◌, ◌^◌, String, List, [], ◌∷◌, ◌++◌, Bool, true, false, not, ◌&&◌, ◌||◌, Option,
  none, some, ◌==◌, if◌then◌else◌, select, find_first, exists, update_where, last?, order_by,
  reverse,
}
use pingu_coin.Base.Int.{ℤ, pos, add64, ltb_ℤ, eqb_ℤ}
use pingu_coin.Base.Text.{◌is◌}
use pingu_coin.Base.Store.{
  Result, ok, err, Error, duplicated_key, insufficient_points, chain_integrity, M, pure, throw,
  ◌>>=◌, ◌>>◌, statement, query, modify, found, transaction, attempt,
}
use pingu_coin.Payment.Model.{PointAccount, PointTransaction, PaymentStore}
use pingu_coin.Payment.Chain.{ChainFault, hash, verify, genesis_hash}

abbrev pub is_account_of : ℕ → PointAccount → Bool
is_account_of user a = a.user_id == user

abbrev pub is_entry_of : ℕ → PointTransaction → Bool
is_entry_of user t = t.user_id == user

unfoldable pub get_account : ℕ → M PaymentStore PointAccount
get_account user = query (λ s. found (find_first (is_account_of user) s.accounts))

abbrev pub sequence_of : PointTransaction → ℕ
sequence_of t = t.chain_sequence

-- `ORDER BY user_id ASC, chain_sequence ASC`, for one user or, at 0, for all.
unfoldable pub ledger : ℕ → PaymentStore → List PointTransaction
ledger user s =
    let own = if user == 0 then s.transactions else select (is_entry_of user) s.transactions in
    order_by (λ t. t.user_id) (order_by sequence_of own)

unfoldable pub accounts_of : ℕ → PaymentStore → List PointAccount
accounts_of user s =
    let own = if user == 0 then s.accounts else select (is_account_of user) s.accounts in
    order_by (λ a. a.user_id) own

-- `latestBalances[user]`: the last row wins, and a missing key reads 0.
unfoldable pub latest_from : ℕ → ℤ → List PointTransaction → ℤ
latest_from user z [] = z
latest_from user z (t ∷ ts) =
    latest_from user (if is_entry_of user t then t.balance_after else z) ts

-- Every account has the balance that its ledger ends in.
unfoldable pub balances_match : List PointTransaction → List PointAccount → Bool
unfolding latest_from
balances_match ts [] = true
balances_match ts (a ∷ as') =
    eqb_ℤ a.balance (latest_from a.user_id (pos 0) ts) && balances_match ts as'

-- Every ledger has an account.
unfoldable pub accounts_exist : List PointTransaction → List PointAccount → Bool
accounts_exist [] accounts = true
accounts_exist (t ∷ ts) accounts =
    exists (is_account_of t.user_id) accounts && accounts_exist ts accounts

abbrev pub accepted : Option ChainFault → Bool
accepted none = true
accepted (some _) = false

module _ (sha256 : List ℕ → List ℕ) where
  -- The second half of `VerifyChain`: the accounts against the ledgers.
  unfoldable pub match_accounts : ℕ → List PointTransaction → M PaymentStore (Unit {0})
  unfolding accounts_of balances_match accounts_exist ◌>>=◌
  match_accounts user entries = do
    accounts ← query (λ s. ok (accounts_of user s))
    if balances_match entries accounts && accounts_exist entries accounts
        then pure tt
        else throw chain_integrity

  unfoldable pub match_entries : ℕ → List PointTransaction → M PaymentStore (Unit {0})
  unfolding match_accounts ◌>>=◌
  match_entries user entries = do
    if accepted (verify sha256 entries) then pure tt else throw chain_integrity
    match_accounts user entries

  -- `VerifyChain`
  unfoldable pub verify_chain : ℕ → M PaymentStore (Unit {0})
  unfolding ledger match_entries ◌>>=◌
  verify_chain user = do entries ← query (λ s. ok (ledger user s)); match_entries user entries

-- `repo.db.Create(&account)`: `user_id` is the primary key.
unfoldable pub insert_account : ℕ → PaymentStore → Result PointAccount × PaymentStore
insert_account user s =
    let account : PointAccount = record { user_id = user; balance = pos 0 } in
    if exists (is_account_of user) s.accounts
    then (err duplicated_key, s)
    else (ok account, record s { accounts = s.accounts ++ account ∷ [] })

-- The account, or a new one for a user who has none.
unfoldable pub open_account : ℕ → Result PointAccount → M PaymentStore PointAccount
unfolding insert_account
open_account user (ok account) = pure account
open_account user (err Error.record_not_found) = statement (insert_account user)
open_account user (err e) = throw e

unfoldable pub set_balance : ℕ → ℤ → PaymentStore → PaymentStore
set_balance user balance s = record s {
  accounts = update_where (is_account_of user) (λ a. record a { balance = balance }) s.accounts;
}

-- `ORDER BY chain_sequence DESC`, the first row.
unfoldable pub last_entry : ℕ → PaymentStore → Option PointTransaction
last_entry user s = last? (order_by sequence_of (select (is_entry_of user) s.transactions))

-- A row without its hash and its place in the chain.
abbrev pub draft : ℕ → ℤ → String → String → Option ℕ → ℤ → PointTransaction
draft user amount kind reason payment balance = record {
  id = 0;
  user_id = user;
  amount = amount;
  kind = kind;
  payment_id = payment;
  reason = reason;
  balance_after = balance;
  chain_sequence = 0;
  previous_hash = "";
  transaction_hash = "";
}

-- Its place: behind the last row, or at the beginning.
unfoldable pub place : PointTransaction → Option PointTransaction → PointTransaction
place t none = record t { chain_sequence = 1; previous_hash = genesis_hash }
place t (some previous) = record t {
  chain_sequence = (previous.chain_sequence + 1) % 2 ^ 64;
  previous_hash = previous.transaction_hash;
}

module _ (sha256 : List ℕ → List ℕ) where
  unfoldable pub seal : PointTransaction → PointTransaction
  seal t = record t { transaction_hash = hash sha256 t }

-- The unique indexes on (user_id, chain_sequence) and on transaction_hash.
abbrev pub clashes : PointTransaction → PointTransaction → Bool
clashes t x =
    x.user_id == t.user_id && x.chain_sequence == t.chain_sequence
    || (x.transaction_hash is t.transaction_hash)

unfoldable pub insert_entry :
    PointTransaction → PaymentStore → Result PointTransaction × PaymentStore
insert_entry t s =
    let row = record t { id = s.next_transaction } in
    if exists (clashes t) s.transactions then (err duplicated_key, s) else (
      ok row,
      record s {
        transactions = s.transactions ++ row ∷ [];
        next_transaction = suc s.next_transaction;
      },
    )

module _ (sha256 : List ℕ → List ℕ) where
  -- `Adjust` from the update of the balance on.
  unfoldable pub post : ℕ → ℤ → String → String → Option ℕ → ℤ → M PaymentStore PointTransaction
  unfolding set_balance last_entry place seal insert_entry ◌>>=◌
  post user amount kind reason payment balance = do
    modify (set_balance user balance)
    previous ← query (λ s. ok (last_entry user s))
    statement (
        insert_entry (seal sha256 (place (draft user amount kind reason payment balance) previous)))

  -- `Adjust` from the check of the chain on.
  unfoldable pub adjust_opened :
      ℕ → ℤ → String → String → Option ℕ → PointAccount → M PaymentStore PointTransaction
  unfolding verify_chain post ◌>>=◌
  adjust_opened user amount kind reason payment account = do
    verify_chain sha256 user
    let balance = add64 account.balance amount
    let write = post user amount kind reason payment balance
    if ltb_ℤ balance (pos 0) then throw insufficient_points else write

  -- `Adjust`
  unfoldable pub adjust : ℕ → ℤ → String → String → Option ℕ → M PaymentStore PointTransaction
  unfolding get_account open_account adjust_opened ◌>>=◌
  adjust user amount kind reason payment = do
    looked_up ← attempt (get_account user)
    account ← open_account user looked_up
    adjust_opened user amount kind reason payment account

  -- `AdjustAtomic`
  unfoldable pub adjust_atomic :
      ℕ → ℤ → String → String → Option ℕ → M PaymentStore PointTransaction
  unfolding adjust
  adjust_atomic user amount kind reason payment =
      transaction (adjust user amount kind reason payment)

  -- `ListTransactions`: the newest row first.
  unfoldable pub list_transactions : ℕ → M PaymentStore (List PointTransaction)
  unfolding verify_chain ◌>>=◌
  list_transactions user = do
    verify_chain sha256 user
    query (λ s.
        ok (
          reverse (if user == 0 then s.transactions else select (is_entry_of user) s.transactions)))
