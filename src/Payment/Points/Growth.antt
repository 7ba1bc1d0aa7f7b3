-- ===== src/Payment/Points/Growth.antt =====
-- What `Adjust` leaves behind: a ledger one row longer that `VerifyChain` accepts, and the
-- account that it ends in.
use mathlib.Core.Bool.{true≢false}
use pingu_coin.Base.{
  ℕ, suc, ◌^◌, ◌≤◌, ◌<◌, List, [], ◌∷◌, ◌++◌, Bool, true, false, Option, none, some, ◌≡◌, ◌≢◌, ◌∙◌,
  sym, refl, ==→eq, ==_refl, if◌then◌else◌, arith, All, All-weaken, All-order_by, All-order_by_back,
  select, exists, update_where, last?, order_by, order_by-append, select-append, Bool-cases, inl,
  inr, length, ap,
}
use pingu_coin.Base.Int.{ℤ, pos}
use pingu_coin.Payment.Model.{PointAccount, PointTransaction, PaymentStore}
use pingu_coin.Payment.Chain.{verify, verify_from, Cursor, at_genesis, cursor_after}
use pingu_coin.Payment.Chain.Laws.{
  Fits, Fits→check, enter-same, end_or, verify-genesis, verify-sequences, verify-end,
  verify_from-append,
}
use pingu_coin.Payment.Points.{
  is_account_of, is_entry_of, ledger, accounts_of, latest_from, balances_match, sequence_of,
}
use pingu_coin.Payment.Points.Audit.{
  entries, entries-OfUser, ledger-entries, accounts_of-own, Audited, All→balances_match,
  All→accounts_exist,
}
use pingu_coin.Payment.Points.Posting.{IsDigest, counted}

latest-append :
    (u : ℕ) (z : ℤ) (ts : List PointTransaction) (t : PointTransaction)
    → t.user_id ≡ u
    → latest_from u z (ts ++ t ∷ []) ≡ t.balance_after
unfolding latest_from
latest-append u z [] t own = rw (own, ==_refl u) refl
latest-append u z (x ∷ ts) t own =
    latest-append u (if is_entry_of u x then x.balance_after else z) ts t own

-- The user's accounts behind the update of the balance.
updated-All :
    (u : ℕ) (b : ℤ) (xs : List PointAccount)
    → let f = λ (a : PointAccount). record a { balance = b } in
      All
        (λ a. (a.user_id ≡ u) × (a.balance ≡ b))
        (select (is_account_of u) (update_where (is_account_of u) f xs))
updated-All u b [] = tt
updated-All u b (x ∷ xs) = ground (arith, updated-All u b xs, ==→eq x.user_id u)

updated-exists :
    (u : ℕ) (b : ℤ) (xs : List PointAccount)
    → let f = λ (a : PointAccount). record a { balance = b } in
      exists (is_account_of u) (select (is_account_of u) (update_where (is_account_of u) f xs))
      ≡ exists (is_account_of u) xs
updated-exists u b [] = refl
updated-exists u b (x ∷ xs) = ground (arith, updated-exists u b xs)

exists-All :
    {A : Type 0} (p : A → Bool) (xs : List A) → exists p xs ≡ false → All (λ x. p x ≡ false) xs
exists-All p [] h = tt
exists-All p (x ∷ xs) h = ground (arith, exists-All p xs)

All-exists :
    {A : Type 0} (p : A → Bool) (xs : List A) → All (λ x. p x ≡ false) xs → exists p xs ≡ false
All-exists p [] h = refl
All-exists p (x ∷ xs) h = rw h.0 (All-exists p xs h.1)

exists-order_by :
    {A : Type 0} (key : A → ℕ) (p : A → Bool) (xs : List A)
    → exists p xs ≡ true
    → exists p (order_by key xs) ≡ true
exists-order_by key p xs h = elim (Bool-cases (exists p (order_by key xs))) [
  | inl e ↦ e
  | inr e ↦
      let missing =
        All-order_by_back key (λ x. p x ≡ false) xs (exists-All p (order_by key xs) e) in
      absurd (true≢false (sym h ∙ All-exists p xs missing))
]

end_or-user : (u : ℕ) (o : Option PointTransaction) → (end_or u (at_genesis u) o).user ≡ some u
end_or-user u none = refl
end_or-user u (some t) = refl

module _ (sha256 : List ℕ → List ℕ) (d : IsDigest sha256) (user : ℕ) (some_user : user ≢ 0) where
  selected :
      (row : PointTransaction)
      → row.user_id ≡ user
      → select (is_entry_of user) (row ∷ []) ≡ row ∷ []
  selected row own = ground (arith, ==_refl user)

  entries-append :
      (s t : PaymentStore) (row : PointTransaction)
      → t.transactions ≡ s.transactions ++ row ∷ []
      → row.user_id ≡ user
      → All (λ x. x.chain_sequence ≤ row.chain_sequence) (entries user s)
      → entries user t ≡ entries user s ++ row ∷ []
  entries-append s t row e own behind =
      rw (e, select-append (is_entry_of user) s.transactions (row ∷ []), selected row own)
        (order_by-append sequence_of row (select (is_entry_of user) s.transactions) behind)

  -- The tables behind a row that fits the end of the ledger, and the update of the account.
  pub record Grown (s t : PaymentStore) (row : PointTransaction) : Type 0 where
    pub rows : t.transactions ≡ s.transactions ++ row ∷ []
    pub account :
        t.accounts
        ≡ update_where
            (is_account_of user)
            (λ a. record a { balance = row.balance_after })
            s.accounts
    pub own : row.user_id ≡ user
    pub fits : Fits sha256 row (end_or user (at_genesis user) (last? (entries user s)))

  pub accepted-entries :
      (s : PaymentStore)
      → Audited sha256 user s
      → verify_from sha256 (at_genesis user) (entries user s) ≡ none
  accepted-entries s audit =
      let chain = rw (ledger-entries user s some_user) at audit.chain in
      sym (verify-genesis sha256 user (entries user s) (entries-OfUser user s)) ∙ chain

  Grown-entries :
      (s t : PaymentStore) (row : PointTransaction)
      → Audited sha256 user s
      → Grown s t row
      → suc (length (entries user s)) < 2 ^ 64
      → entries user t ≡ entries user s ++ row ∷ []
  Grown-entries s t row audit g room =
      let ts = entries user s in
      let own = entries-OfUser user s in
      let c = at_genesis user in
      let passed = accepted-entries s audit in
      let before =
        verify-sequences sha256 user c ts (suc (length ts)) refl own passed (omega arith) room in
      let count = counted user c ts refl own (omega arith) in
      let ending =
        ap (λ (x : Cursor). x.expected_sequence) (verify-end sha256 user c ts refl own passed) in
      let number = g.fits.sequence ∙ sym ending ∙ count in
      entries-append s t row g.rows g.own
        (All-weaken _ _ ts (λ x h. omega (arith, number, h)) before)

  Grown-chain :
      (s t : PaymentStore) (row : PointTransaction)
      → Audited sha256 user s
      → Grown s t row
      → suc (length (entries user s)) < 2 ^ 64
      → verify sha256 (ledger user t) ≡ none
  Grown-chain s t row audit g room =
      let ts = entries user s in
      let own = entries-OfUser user s in
      let c = at_genesis user in
      let passed = accepted-entries s audit in
      let ending = verify-end sha256 user c ts refl own passed in
      let stays =
        enter-same user row (cursor_after c ts) (rw ending (end_or-user user (last? ts))) g.own in
      rw
        (
          ledger-entries user t some_user,
          verify-genesis sha256 user (entries user t) (entries-OfUser user t),
          Grown-entries s t row audit g room,
          verify_from-append sha256 c ts row passed,
          stays,
          ending,
        )
        (Fits→check sha256 row _ g.fits)

  Grown-matched :
      (s t : PaymentStore) (row : PointTransaction)
      → Audited sha256 user s
      → Grown s t row
      → suc (length (entries user s)) < 2 ^ 64
      → balances_match (ledger user t) (accounts_of user t) ≡ true
  Grown-matched s t row audit g room =
      rw
        (
          ledger-entries user t some_user,
          accounts_of-own user t some_user,
          Grown-entries s t row audit g room,
          g.account,
        )
        (All→balances_match _ _ (
          All-order_by _ _ _ (
            All-weaken _ _ _
              (λ a h.
                h.1 ∙ sym (latest-append a.user_id (pos 0) (entries user s) row (g.own ∙ sym h.0)))
              (updated-All user row.balance_after s.accounts))))

  -- The user's tables are in order again.
  pub Grown-Audited :
      (s t : PaymentStore) (row : PointTransaction)
      → Audited sha256 user s
      → Grown s t row
      → suc (length (entries user s)) < 2 ^ 64
      → exists (is_account_of user) s.accounts ≡ true
      → Audited sha256 user t
  Grown-Audited s t row audit g room here = record {
    chain = Grown-chain s t row audit g room;
    matched = Grown-matched s t row audit g room;
    owned =
        rw (ledger-entries user t some_user, accounts_of-own user t some_user)
          (All→accounts_exist user _ _ (entries-OfUser user t) (
            exists-order_by (λ a. a.user_id) (is_account_of user)
              (select (is_account_of user) t.accounts)
              (rw (g.account, updated-exists user row.balance_after s.accounts) here)));
  }
