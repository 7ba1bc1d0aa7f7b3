-- ===== src/Payment/Points/Completion.antt =====
-- With a driver that fails no statement, `VerifyChain` accepts what is in order, and `Adjust`
-- succeeds.
use pingu_coin.Base.{
  ℕ, String, List, [], ◌∷◌, ◌++◌, false, Option, some, ◌≡◌, refl, exists, find_first, suc, ◌≢◌, ◌<◌,
  ◌^◌, length,
}
use pingu_coin.Base.Int.{ℤ, pos, add64, ltb_ℤ}
use pingu_coin.Base.Store.{ok, calm, ◌>>=◌, statement, transaction}
use pingu_coin.Base.Store.Laws.{leads_calm}
use pingu_coin.Payment.Model.{PointAccount, PointTransaction, PaymentStore}
use pingu_coin.Payment.Points.{
  is_account_of, get_account, open_account, match_accounts, match_entries, verify_chain,
  set_balance, last_entry, draft, place, seal, insert_entry, clashes, post, adjust_opened, adjust,
  adjust_atomic,
}
use pingu_coin.Payment.Points.Audit.{entries, Audited}
use pingu_coin.Payment.Points.Posting.{IsDigest}
use pingu_coin.Payment.Points.Adjust.{Adjusted, adjust_atomic-Settles}

module _ (sha256 : List ℕ → List ℕ) (user : ℕ) (s : PaymentStore)
    (audit : Audited sha256 user s) where
  -- A user's tables that are in order pass `VerifyChain`, while no statement fails.
  pub verify_chain-passes : verify_chain sha256 user (calm s) ≡ (ok tt, calm s)
  unfolding verify_chain match_entries match_accounts ◌>>=◌ statement
  verify_chain-passes = rw (audit.chain, audit.matched, audit.owned) refl

  module _ (amount : ℤ) (kind reason : String) (payment : Option ℕ) (account : PointAccount) where
    -- The row that is posted.
    abbrev pub posting : PointTransaction
    posting = seal sha256 (
        place (draft user amount kind reason payment (add64 account.balance amount))
          (last_entry user s))

    adjust-completes :
        find_first (is_account_of user) s.accounts ≡ some account
        → ltb_ℤ (add64 account.balance amount) (pos 0) ≡ false
        → exists (clashes posting) s.transactions ≡ false
        → let row = record posting { id = s.next_transaction } in
          adjust_atomic sha256 user amount kind reason payment (calm s) ≡ (
            ok row,
            calm (record (set_balance user (add64 account.balance amount) s) {
              transactions = s.transactions ++ row ∷ [];
              next_transaction = suc s.next_transaction;
            }),
          )
    unfolding adjust_atomic adjust get_account open_account adjust_opened post insert_entry
        set_balance ◌>>=◌ statement transaction
    adjust-completes found_account covered fresh =
        rw (found_account, verify_chain-passes, covered, fresh) refl

module _ (sha256 : List ℕ → List ℕ) (d : IsDigest sha256) (user : ℕ) (amount : ℤ)
    (kind reason : String) (payment : Option ℕ) (s : PaymentStore) (some_user : user ≢ 0)
    (room : suc (length (entries user s)) < 2 ^ 64) where
  -- While no statement fails, `AdjustAtomic` succeeds for a user (not 0) whose tables are in order,
  -- who has an account and fewer than 2^64 - 1 rows, where the balance and the amount come to no less
  -- than 0 and the row that is posted clashes with no other. It stores one row of that amount behind
  -- the others, adds the amount to the balance, leaves the other balances and tables alone, and the
  -- tables are in order again. The digest has 32 bytes.
  pub adjust-succeeds :
      (account : PointAccount) (audit : Audited sha256 user s)
      → find_first (is_account_of user) s.accounts ≡ some account
      → ltb_ℤ (add64 account.balance amount) (pos 0) ≡ false
      → exists
          (clashes (posting sha256 user s audit amount kind reason payment account))
          s.transactions
        ≡ false
      → (row : PointTransaction) × (t : PaymentStore) × (adjust_atomic sha256 user amount kind
            reason payment
            (calm s)
          ≡ (ok row, calm t))
        × Adjusted sha256 d user amount kind reason payment s row t
  adjust-succeeds account audit found_account covered fresh =
      let done =
        adjust-completes sha256 user s audit amount kind reason payment account found_account
          covered fresh in
      (
        _,
        _,
        done,
        leads_calm (adjust_atomic-Settles sha256 d user amount kind reason payment s some_user room)
            done,
      )
