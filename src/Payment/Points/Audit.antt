-- ===== src/Payment/Points/Audit.antt =====
-- What `VerifyChain` checks, as facts about the tables: the ledger of a user, and its account.
use pingu_coin.Base.{
  ℕ, List, [], ◌∷◌, true, ◌&&◌, Option, none, ◌≡◌, ◌≢◌, refl, ◌==◌, ==→eq, if◌then◌else◌, arith,
  All, All-order_by, select-All, select, exists, order_by, order_by-constant, Bool-cases, inl, inr,
}
use pingu_coin.Base.Int.{pos, eqb_ℤ→eq, eq→eqb_ℤ}
use pingu_coin.Base.Store.{Result, ok, err, pure, throw, chain_integrity}
use pingu_coin.Base.Store.Laws.{Leads, leads_throw, leads_pure, leads_query, leads_guard}
use pingu_coin.Payment.Model.{PointAccount, PointTransaction, PaymentStore}
use pingu_coin.Payment.Chain.{ChainFault, verify}
use pingu_coin.Payment.Chain.Laws.{OfUser}
use pingu_coin.Payment.Points.{
  is_account_of, is_entry_of, ledger, accounts_of, latest_from, balances_match, accounts_exist,
  accepted, match_accounts, match_entries, verify_chain, sequence_of,
}

-- The rows of one user, by their place in the chain.
abbrev pub entries : ℕ → PaymentStore → List PointTransaction
entries user s = order_by sequence_of (select (is_entry_of user) s.transactions)

pub entries-OfUser : (user : ℕ) (s : PaymentStore) → All (OfUser user) (entries user s)
entries-OfUser user s =
    All-order_by sequence_of (OfUser user) _
      (select-All (OfUser user) (is_entry_of user) s.transactions (λ t e. ==→eq t.user_id user e))

pub ledger-entries : (user : ℕ) (s : PaymentStore) → user ≢ 0 → ledger user s ≡ entries user s
unfolding ledger
ledger-entries user s some_user = elim (Bool-cases (user == 0)) [
  | inl zero_user ↦ absurd (some_user (==→eq user 0 zero_user))
  | inr e ↦ rw e (
      order_by-constant (λ (t : PointTransaction). t.user_id) user (entries user s)
        (entries-OfUser user s))
]

abbrev pub own_accounts : ℕ → PaymentStore → List PointAccount
own_accounts user s = order_by (λ a. a.user_id) (select (is_account_of user) s.accounts)

pub accounts_of-own :
    (user : ℕ) (s : PaymentStore) → user ≢ 0 → accounts_of user s ≡ own_accounts user s
unfolding accounts_of
accounts_of-own user s some_user = elim (Bool-cases (user == 0)) [
  | inl zero_user ↦ absurd (some_user (==→eq user 0 zero_user))
  | inr e ↦ rw e refl
]

pub balances_match→All :
    (ts : List PointTransaction) (accounts : List PointAccount)
    → balances_match ts accounts ≡ true
    → All (λ a. a.balance ≡ latest_from a.user_id (pos 0) ts) accounts
unfolding balances_match
balances_match→All ts [] h = tt
balances_match→All ts (a ∷ rest) h =
    ground
      (arith, balances_match→All ts rest, eqb_ℤ→eq a.balance (latest_from a.user_id (pos 0) ts))

pub All→balances_match :
    (ts : List PointTransaction) (accounts : List PointAccount)
    → All (λ a. a.balance ≡ latest_from a.user_id (pos 0) ts) accounts
    → balances_match ts accounts ≡ true
unfolding balances_match
All→balances_match ts [] h = refl
All→balances_match ts (a ∷ rest) h =
    rw (eq→eqb_ℤ a.balance (latest_from a.user_id (pos 0) ts) h.0) (All→balances_match ts rest h.1)

pub All→accounts_exist :
    (user : ℕ) (ts : List PointTransaction) (accounts : List PointAccount)
    → All (OfUser user) ts
    → exists (is_account_of user) accounts ≡ true
    → accounts_exist ts accounts ≡ true
unfolding accounts_exist
All→accounts_exist user [] accounts own h = refl
All→accounts_exist user (t ∷ ts) accounts own h =
    rw own.0 (rw h (All→accounts_exist user ts accounts own.1 h))

ok-injective : {A : Type 0} {a b : A} → ok a ≡ ok b → a ≡ b
ok-injective e = cc

module _ (sha256 : List ℕ → List ℕ) where
  -- What a user's tables satisfy when `VerifyChain` returns no error for the user.
  pub record Audited (user : ℕ) (s : PaymentStore) : Type 0 where
    pub chain : verify sha256 (ledger user s) ≡ none
    pub matched : balances_match (ledger user s) (accounts_of user s) ≡ true
    pub owned : accounts_exist (ledger user s) (accounts_of user s) ≡ true

  accepted→none : (o : Option ChainFault) → accepted o ≡ true → o ≡ none
  accepted→none o h = ground arith

  abbrev pub Audit : ℕ → PaymentStore → Result (Unit {0}) → PaymentStore → Type 0
  Audit user s (ok _) t = (t ≡ s) × Audited user s
  Audit user s (err _) t = t ≡ s

  match_accounts-Audit :
      (user : ℕ) (s : PaymentStore)
      → verify sha256 (ledger user s) ≡ none
      → Leads (match_accounts sha256 user (ledger user s)) s (Audit user s)
  unfolding match_accounts
  match_accounts-Audit user s chain = leads_query _ _ tested (λ _. refl)
    where
      tested :
          (accounts : List PointAccount)
          → ok (accounts_of user s) ≡ ok accounts
          → let entries = ledger user s in
            Leads
              (if balances_match entries accounts && accounts_exist entries accounts
                then pure tt
                else throw chain_integrity)
              s
              (Audit user s)
      tested accounts e =
          elim (Bool-cases
            (balances_match (ledger user s) accounts && accounts_exist (ledger user s) accounts)) [
              | inl b ↦ rw b (leads_pure (refl, ground arith))
              | inr b ↦ rw b (leads_throw refl)
            ]

  match_entries-Audit :
      (user : ℕ) (s : PaymentStore) (ts : List PointTransaction)
      → ledger user s ≡ ts
      → Leads (match_entries sha256 user ts) s (Audit user s)
  unfolding match_entries
  match_entries-Audit user s ts e =
      leads_guard (accepted (verify sha256 ts)) chain_integrity (match_accounts sha256 user ts)
        (λ b. rw (← e) (match_accounts-Audit user s (rw e (accepted→none (verify sha256 ts) b))))
        refl

  pub verify_chain-Audit :
      (user : ℕ) (s : PaymentStore) → Leads (verify_chain sha256 user) s (Audit user s)
  unfolding verify_chain
  verify_chain-Audit user s =
      leads_query _ _ (λ ts e. match_entries-Audit user s ts (ok-injective e)) (λ _. refl)
