-- ===== src/Payment/Points/Ledgered.antt =====
-- What the tables of a user are when `VerifyChain` accepts them, without its loop and its tests.
use pingu_coin.Base.{
  ℕ, String, ◌+◌, ◌%◌, ◌^◌, List, [], ◌∷◌, true, Bool, ◌&&◌, sym, none, some, ◌≡◌, ◌≢◌, ◌∙◌, refl,
  arith, All, exists, ◌⊎◌, inl, inr, All-order_by, select-All, ==_refl, ==→eq,
}
use pingu_coin.Base.Int.{ℤ, pos, add64}
use pingu_coin.Base.Store.{Result, ok, err}
use pingu_coin.Base.Store.Laws.{Leads, leads_weaken}
use pingu_coin.Payment.Model.{PointAccount, PointTransaction, PaymentStore}
use pingu_coin.Payment.Chain.{
  Cursor, at_genesis, enter, advance, genesis_hash, hash, check, verify_from,
}
use pingu_coin.Payment.Chain.Laws.{
  OfUser, sum_from, both_none, enter-same, check→Fits, verify-genesis,
}
use pingu_coin.Payment.Points.{is_account_of, latest_from, accounts_exist, verify_chain}
use pingu_coin.Payment.Points.Audit.{
  entries, entries-OfUser, ledger-entries, own_accounts, accounts_of-own, balances_match→All,
  Audited, Audit, verify_chain-Audit,
}

module _ (sha256 : List ℕ → List ℕ) where
  -- Rows that follow a row with this number, hash and balance: each has the next number, the hash of
  -- the row before, the balance of the row before and its amount added in 64 bits, and its own hash.
  abbrev pub Chained : ℕ → String → ℤ → List PointTransaction → Type 0
  Chained n link balance [] = Unit
  Chained n link balance (t ∷ ts) =
      (t.chain_sequence ≡ n)
      × (t.previous_hash ≡ link)
      × (t.balance_after ≡ add64 balance t.amount)
      × (t.transaction_hash ≡ hash sha256 t)
      × Chained ((n + 1) % 2 ^ 64) t.transaction_hash t.balance_after ts

  passed-Chained :
      (u : ℕ) (c : Cursor) (ts : List PointTransaction)
      → c.user ≡ some u
      → All (OfUser u) ts
      → verify_from sha256 c ts ≡ none
      → Chained c.expected_sequence c.previous_hash c.previous_balance ts
  unfolding verify_from advance
  passed-Chained u c [] e own h = tt
  passed-Chained u c (t ∷ ts) e own h =
      let stays = enter-same u t c e own.0 in
      let (passed, rest) = both_none (check sha256 t (enter t c)) _ h in
      let fits = check→Fits sha256 t c (rw stays at passed) in
      (
        fits.sequence,
        fits.link,
        fits.balance,
        fits.hashed,
        passed-Chained u (advance t c) ts e own.1 (rw stays at rest),
      )

  latest-sum :
      (u : ℕ) (ts : List PointTransaction) (n : ℕ) (link : String) (balance : ℤ)
      → All (OfUser u) ts
      → Chained n link balance ts
      → latest_from u balance ts ≡ sum_from balance ts
  unfolding latest_from sum_from
  latest-sum u [] n link balance own h = refl
  latest-sum u (t ∷ ts) n link balance own h =
      rw (own.0, ==_refl u)
        (latest-sum u ts ((n + 1) % 2 ^ 64) t.transaction_hash t.balance_after own.1 h.4
          ∙ rw h.2 refl)

  -- The rows of the user are one chain from the genesis hash and the number 1 on, each account of the
  -- user has the sum of their amounts for a balance, and there is an account if there is a row.
  pub record Ledgered (user : ℕ) (s : PaymentStore) : Type 0 where
    pub chained : Chained 1 genesis_hash (pos 0) (entries user s)
    pub balances : All (λ a. a.balance ≡ sum_from (pos 0) (entries user s)) (own_accounts user s)
    pub owned : (entries user s ≡ []) ⊎ (exists (is_account_of user) (own_accounts user s) ≡ true)

  both-All :
      {A : Type 0} (P Q R : A → Type 0)
      → ((a : A) → P a → Q a → R a)
      → (xs : List A) → All P xs
      → All Q xs
      → All R xs
  both-All P Q R f [] p q = tt
  both-All P Q R f (x ∷ xs) p q = (f x p.0 q.0, both-All P Q R f xs p.1 q.1)

  owned-account :
      (user : ℕ) (ts : List PointTransaction) (accounts : List PointAccount)
      → All (OfUser user) ts
      → accounts_exist ts accounts ≡ true
      → (ts ≡ []) ⊎ (exists (is_account_of user) accounts ≡ true)
  unfolding accounts_exist
  owned-account user [] accounts own h = inl refl
  owned-account user (t ∷ ts) accounts own h = inr (first _ _ (rw own.0 at h))
    where
      first : (b c : Bool) → (b && c) ≡ true → b ≡ true
      first b c h = ground arith

  module _ (user : ℕ) (s : PaymentStore) (some_user : user ≢ 0) where
    accounts-OfUser : All (λ (a : PointAccount). a.user_id ≡ user) (own_accounts user s)
    accounts-OfUser =
        All-order_by (λ a. a.user_id) (λ a. a.user_id ≡ user) _
          (select-All (λ a. a.user_id ≡ user) (is_account_of user) s.accounts
            (λ a e. ==→eq a.user_id user e))

    Audited→Ledgered : Audited sha256 user s → Ledgered user s
    Audited→Ledgered audit =
        let own = entries-OfUser user s in
        let chain =
          passed-Chained user (at_genesis user) (entries user s) refl own (verify_entries audit) in
        record {
          chained = chain;
          balances =
              both-All _ _ _
                (λ a e balance.
                  (rw e at balance)
                  ∙ latest-sum user (entries user s) 1 genesis_hash (pos 0) own chain)
                (own_accounts user s) accounts-OfUser
                (balances_match→All (entries user s) (own_accounts user s) (
                  rw (ledger-entries user s some_user, accounts_of-own user s some_user) at
                    audit.matched));
          owned = owned-account user (entries user s) (own_accounts user s) own (
              rw (ledger-entries user s some_user, accounts_of-own user s some_user) at
                audit.owned);
        }
      where
        verify_entries :
            Audited sha256 user s → verify_from sha256 (at_genesis user) (entries user s) ≡ none
        verify_entries audit =
            sym (verify-genesis sha256 user (entries user s) (entries-OfUser user s))
            ∙ rw (ledger-entries user s some_user) at audit.chain

    abbrev pub Accepted : Result (Unit {0}) → PaymentStore → Type 0
    Accepted (ok _) t = (t ≡ s) × Ledgered user s
    Accepted (err _) t = t ≡ s

    -- Whatever statements fail, `VerifyChain` for a user (not 0, which stands for all) changes no
    -- row, and returns no error only where the rows of the user are numbered from 1 on, each links to
    -- the hash of the row before and has its own hash, each balance is the one before and the amount
    -- (in 64 bits), every account of the user has the sum of the amounts for a balance, and there is
    -- an account if there is a row.
    pub verify_chain-Accepted : Leads (verify_chain sha256 user) s Accepted
    verify_chain-Accepted = leads_weaken (verify_chain-Audit sha256 user s) told
      where
        told : (r : Result (Unit {0})) (t : PaymentStore) → Audit sha256 user s r t → Accepted r t
        told (ok _) t h = (h.0, Audited→Ledgered h.1)
        told (err _) t h = h
