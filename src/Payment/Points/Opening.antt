-- ===== src/Payment/Points/Opening.antt =====
-- The account that an adjustment starts from, found or opened, and its balance.
use pingu_coin.Base.{
  ℕ, List, [], ◌∷◌, ◌++◌, Bool, true, Option, none, some, ◌≡◌, ◌≢◌, ◌∙◌, refl, ◌==◌, ==→eq, ==_refl,
  arith, All, All-order_by_back, select, exists, find_first, find_first-append_none, update_where,
  Bool-cases, Option-cases, inl, inr, ap,
}
use pingu_coin.Base.Int.{ℤ, pos}
use pingu_coin.Base.Store.{ok, found}
use pingu_coin.Base.Store.Laws.{Leads, WhenOk, leads_statement, leads_pure}
use pingu_coin.Payment.Model.{PointAccount, PointTransaction, PaymentStore}
use pingu_coin.Payment.Chain.{at_genesis, cursor_after}
use pingu_coin.Payment.Points.{is_account_of, insert_account, open_account, latest_from}
use pingu_coin.Payment.Points.Audit.{
  entries, entries-OfUser, Audited, ledger-entries, own_accounts, accounts_of-own,
  balances_match→All,
}
use pingu_coin.Payment.Points.Posting.{latest-end}

abbrev pub balance_in : Option PointAccount → ℤ
balance_in none = pos 0
balance_in (some a) = a.balance

-- The balance of a user; one who has no account has no points.
abbrev pub balance_of : ℕ → PaymentStore → ℤ
balance_of user s = balance_in (find_first (is_account_of user) s.accounts)

module _ (user : ℕ) where
  -- The account that the adjustment starts from: the one that is there, or a new one.
  pub record Opened (s : PaymentStore) (account : PointAccount) (t : PaymentStore) : Type 0 where
    pub rows : t ≡ record s { accounts = t.accounts }
    pub here : exists (is_account_of user) t.accounts ≡ true
    pub starts : account.balance ≡ balance_of user s
    pub current : balance_of user t ≡ account.balance
    pub others :
        (v : ℕ)
        → v ≢ user
        → find_first (is_account_of v) t.accounts ≡ find_first (is_account_of v) s.accounts

  find_first-exists :
      (p : PointAccount → Bool) (xs : List PointAccount) (a : PointAccount)
      → find_first p xs ≡ some a
      → exists p xs ≡ true
  find_first-exists p [] a h = ground arith
  find_first-exists p (x ∷ xs) a h = ground (arith, find_first-exists p xs a)

  pub find_first-other :
      (v : ℕ) (b : ℤ) (xs : List PointAccount)
      → v ≢ user
      → find_first
          (is_account_of v)
          (update_where (is_account_of user) (λ a. record a { balance = b }) xs)
        ≡ find_first (is_account_of v) xs
  find_first-other v b [] other = refl
  find_first-other v b (x ∷ xs) other =
      ground (arith, find_first-other v b xs, ==→eq x.user_id user, ==→eq x.user_id v)

  find_first-snoc :
      (v : ℕ) (x : PointAccount) (xs : List PointAccount)
      → v ≢ user
      → x.user_id ≡ user
      → find_first (is_account_of v) (xs ++ x ∷ []) ≡ find_first (is_account_of v) xs
  find_first-snoc v x [] other own = ground (arith, ==→eq user v)
  find_first-snoc v x (y ∷ xs) other own = ground (arith, find_first-snoc v x xs)

  exists-snoc :
      (x : PointAccount) (xs : List PointAccount)
      → x.user_id ≡ user
      → exists (is_account_of user) (xs ++ x ∷ []) ≡ true
  exists-snoc x [] own = ground (arith, ==_refl user)
  exists-snoc x (y ∷ xs) own = ground (arith, exists-snoc x xs)

  pub find_first-updated :
      (b : ℤ) (xs : List PointAccount)
      → exists (is_account_of user) xs ≡ true
      → balance_in (
          find_first
            (is_account_of user)
            (update_where (is_account_of user) (λ a. record a { balance = b }) xs))
        ≡ b
  find_first-updated b [] h = ground arith
  find_first-updated b (x ∷ xs) h = ground (arith, find_first-updated b xs)

  first-balance :
      (z : ℤ) (ts : List PointTransaction) (xs : List PointAccount)
      → exists (is_account_of user) xs ≡ true
      → All (λ a. a.balance ≡ latest_from a.user_id z ts) (select (is_account_of user) xs)
      → balance_in (find_first (is_account_of user) xs) ≡ latest_from user z ts
  first-balance z ts [] h k = ground arith
  first-balance z ts (x ∷ xs) h k = elim (Bool-cases (x.user_id == user)) [
    | inl e ↦ rw e (first (==→eq x.user_id user e) (rw e at k).0)
    | inr e ↦ rw e (first-balance z ts xs (rw e at h) (rw e at k))
  ]
    where
      first :
          x.user_id ≡ user
          → x.balance ≡ latest_from x.user_id z ts
          → x.balance ≡ latest_from user z ts
      first own h = h ∙ ap (λ v. latest_from v z ts) own

  inserted-Opened :
      (s : PaymentStore)
      → find_first (is_account_of user) s.accounts ≡ none
      → WhenOk (Opened s) (insert_account user s).0 (insert_account user s).1
  unfolding insert_account
  inserted-Opened s missing = elim (Bool-cases (exists (is_account_of user) s.accounts)) [
    | inl e ↦ rw e tt
    | inr e ↦
        let account : PointAccount = record { user_id = user; balance = pos 0 } in
        let behind =
          find_first-append_none (is_account_of user) s.accounts (account ∷ []) missing in
        rw e (record {
          rows = refl;
          here = exists-snoc account s.accounts refl;
          starts = rw missing refl;
          current = rw (behind, ==_refl user) refl;
          others = λ v other. find_first-snoc v account s.accounts other refl;
        })
  ]

  pub open-Opened :
      (s : PaymentStore)
      → Leads
          (open_account user (found (find_first (is_account_of user) s.accounts)))
          s
          (WhenOk (Opened s))
  unfolding open_account
  open-Opened s = elim (Option-cases (find_first (is_account_of user) s.accounts)) [
    | inl missing ↦ rw missing (leads_statement _ tt (inserted-Opened s missing))
    | inr (a, e) ↦ rw e (
        leads_pure (record {
          rows = refl;
          here = find_first-exists (is_account_of user) s.accounts a e;
          starts = rw e refl;
          current = rw e refl;
          others = λ v other. refl;
        }))
  ]

pub ok-injective : {A : Type 0} {a b : A} → ok a ≡ ok b → a ≡ b
ok-injective e = cc

-- The balance of the account is the one where the ledger ends.
pub balance-end :
    (sha256 : List ℕ → List ℕ) (user : ℕ) (s : PaymentStore)
    → user ≢ 0
    → Audited sha256 user s
    → exists (is_account_of user) s.accounts ≡ true
    → balance_of user s ≡ (cursor_after (at_genesis user) (entries user s)).previous_balance
balance-end sha256 user s some_user audit here =
    let matched =
      rw (ledger-entries user s some_user, accounts_of-own user s some_user) at audit.matched in
    let own = balances_match→All (entries user s) (own_accounts user s) matched in
    let selected = All-order_by_back _ _ _ own in
    first-balance user (pos 0) (entries user s) s.accounts here selected
    ∙ latest-end user (at_genesis user) (entries user s) refl (entries-OfUser user s)
