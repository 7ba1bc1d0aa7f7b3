-- ===== src/Payment/Points/Adjust.antt =====
-- `Adjust` and `AdjustAtomic` of a user's points, whatever statements fail.
use pingu_coin.Base.{
  ℕ, suc, ◌^◌, ◌<◌, String, List, [], ◌∷◌, ◌++◌, false, Option, none, some, ◌≡◌, ◌≢◌, ◌∙◌, sym,
  refl, if◌then◌else◌, exists, find_first, update_where, Bool-cases, inl, inr, length, ap,
}
use pingu_coin.Base.Int.{ℤ, pos, add64, ltb_ℤ}
use pingu_coin.Base.Store.{Result, ok, err, unavailable, insufficient_points, ◌>>=◌, found, throw}
use pingu_coin.Base.Store.Laws.{
  Leads, WhenOk, leads_statement, leads_throw, leads_throw_bind, leads_query, leads_bind,
  leads_modify, leads_attempt, leads_transaction, leads_weaken,
}
use pingu_coin.Payment.Model.{PointAccount, PointTransaction, PaymentStore}
use pingu_coin.Payment.Chain.{Cursor, at_genesis}
use pingu_coin.Payment.Chain.Laws.{verify-end}
use pingu_coin.Payment.Points.{
  is_account_of, get_account, open_account, set_balance, last_entry, draft, place, seal,
  insert_entry, clashes, post, adjust_opened, adjust, adjust_atomic,
}
use pingu_coin.Payment.Points.Audit.{entries, entries-OfUser, Audited, Audit, verify_chain-Audit}
use pingu_coin.Payment.Points.Posting.{
  IsDigest, end-Linkable, genesis-Linkable, posted, posted-Fits,
}
use pingu_coin.Payment.Points.Growth.{Grown, Grown-Audited, accepted-entries}
use pingu_coin.Payment.Points.Opening.{
  balance_in, balance_of, Opened, open-Opened, find_first-other, find_first-updated, balance-end,
  ok-injective,
}

module _ (sha256 : List ℕ → List ℕ) (d : IsDigest sha256) (user : ℕ) (amount : ℤ)
    (kind reason : String) (payment : Option ℕ) where
  posted-fields :
      (id : ℕ) (balance : ℤ) (previous : Option PointTransaction)
      → let row = posted sha256 d id user amount kind reason payment balance previous in
        (row.user_id ≡ user) × ((row.amount ≡ amount) × (row.balance_after ≡ balance))
  unfolding seal place
  posted-fields id balance none = (refl, (refl, refl))
  posted-fields id balance (some previous) = (refl, (refl, refl))

  -- What a successful adjustment of the rows `s` ends in.
  pub record Adjusted (s : PaymentStore) (row : PointTransaction) (t : PaymentStore) : Type 0 where
    pub grown : t.transactions ≡ s.transactions ++ row ∷ []
    pub owner : row.user_id ≡ user
    pub moved : row.amount ≡ amount
    pub balance : row.balance_after ≡ add64 (balance_of user s) amount
    pub covered : ltb_ℤ row.balance_after (pos 0) ≡ false
    pub account : balance_of user t ≡ row.balance_after
    pub audited : Audited sha256 user t
    pub others : (v : ℕ) → v ≢ user → balance_of v t ≡ balance_of v s
    pub rest : t ≡ record s {
      accounts = t.accounts;
      transactions = t.transactions;
      next_transaction = t.next_transaction;
    }

  module _ (s : PaymentStore) (some_user : user ≢ 0)
      (room : suc (length (entries user s)) < 2 ^ 64) where
    Grown-Adjusted :
        (account : PointAccount) (t t' : PaymentStore) (row : PointTransaction)
        → Opened user s account t
        → Audited sha256 user t
        → Grown sha256 d user some_user t t' row
        → row.amount ≡ amount
        → row.balance_after ≡ add64 account.balance amount
        → ltb_ℤ (add64 account.balance amount) (pos 0) ≡ false
        → t' ≡ record t {
          accounts = t'.accounts;
          transactions = t'.transactions;
          next_transaction = t'.next_transaction;
        }
        → Adjusted s row t'
    Grown-Adjusted account t t' row o audit g moved balance covered rest = record {
      grown = rw g.rows (ap (λ (x : PaymentStore). x.transactions ++ row ∷ []) o.rows);
      owner = g.own;
      moved = moved;
      balance = balance ∙ ap (λ z. add64 z amount) o.starts;
      covered = rw balance covered;
      account = rw g.account (find_first-updated user row.balance_after t.accounts o.here);
      audited =
          Grown-Audited sha256 d user some_user t t' row audit g
            (rw (ap (λ (x : PaymentStore). x.transactions) o.rows) room) o.here;
      others = λ v other. rw g.account (
          ap balance_in
            (find_first-other user v row.balance_after t.accounts other ∙ o.others v other));
      rest =
          rest
          ∙ ap
              (λ (x : PaymentStore). record x {
                accounts = t'.accounts;
                transactions = t'.transactions;
                next_transaction = t'.next_transaction;
              })
              o.rows;
    }

    posted-Grown :
        (account : PointAccount) (t : PaymentStore)
        → Opened user s account t
        → Audited sha256 user t
        → let b = add64 account.balance amount in
          let row =
            posted sha256 d t.next_transaction user amount kind reason payment b
              (last_entry user t) in
          let t' = record t {
            accounts = update_where (is_account_of user) (λ a. record a { balance = b }) t.accounts;
            transactions = t.transactions ++ row ∷ [];
            next_transaction = suc t.next_transaction;
          } in
          Grown sha256 d user some_user t t' row
    unfolding last_entry
    posted-Grown account t o audit =
        let b = add64 account.balance amount in
        let ts = entries user t in
        let own = entries-OfUser user t in
        let passed = accepted-entries sha256 d user some_user t audit in
        let ending = verify-end sha256 user (at_genesis user) ts refl own passed in
        let linked =
          end-Linkable sha256 d user (at_genesis user) ts refl own passed
            (genesis-Linkable sha256 d) in
        let starts = sym o.current ∙ balance-end sha256 user t some_user audit o.here in
        let balance =
          ap (λ z. add64 z amount) (starts ∙ ap (λ (c : Cursor). c.previous_balance) ending) in
        let fields = posted-fields t.next_transaction b (last_entry user t) in
        record {
          rows = refl;
          account = rw fields.1.1 refl;
          own = fields.0;
          fits =
              posted-Fits sha256 d t.next_transaction user amount kind reason payment b
                (last_entry user t) balance (rw ending at linked);
        }

    inserted_row :
        (t : PaymentStore) (new : PointTransaction)
        → let row = record new { id = t.next_transaction } in
          Adjusted s row (record t {
            transactions = t.transactions ++ row ∷ [];
            next_transaction = suc t.next_transaction;
          })
          → WhenOk (Adjusted s) (insert_entry new t).0 (insert_entry new t).1
    unfolding insert_entry
    inserted_row t new done = elim (Bool-cases (exists (clashes new) t.transactions)) [
      | inl e ↦ rw e tt
      | inr e ↦ rw e done
    ]

    post-Adjusted :
        (account : PointAccount) (t : PaymentStore)
        → Opened user s account t
        → Audited sha256 user t
        → ltb_ℤ (add64 account.balance amount) (pos 0) ≡ false
        → Leads
            (post sha256 user amount kind reason payment (add64 account.balance amount))
            t
            (WhenOk (Adjusted s))
    unfolding post insert_entry set_balance last_entry
    post-Adjusted account t o audit covered =
        leads_modify _ _
          (leads_query _ _ (λ previous e. leads_statement _ tt (inserted previous e)) (λ _. tt)) tt
      where
        inserted :
            (previous : Option PointTransaction)
            → ok (last_entry user t) ≡ ok previous
            → let b = add64 account.balance amount in
              let r =
                insert_entry
                  (seal sha256 (place (draft user amount kind reason payment b) previous))
                  (set_balance user b t) in
              WhenOk (Adjusted s) r.0 r.1
        inserted previous e =
            let b = add64 account.balance amount in
            let row =
              posted sha256 d t.next_transaction user amount kind reason payment b
                (last_entry user t) in
            let fields = posted-fields t.next_transaction b (last_entry user t) in
            let grown = posted-Grown account t o audit in
            rw (← ok-injective e) (
              inserted_row (set_balance user b t)
                (seal sha256 (place (draft user amount kind reason payment b) (last_entry user t)))
                (Grown-Adjusted account t _ row o audit grown fields.1.0 fields.1.1 covered refl))

    Opened-Adjusted :
        (account : PointAccount) (t : PaymentStore)
        → Opened user s account t
        → Leads
            (adjust_opened sha256 user amount kind reason payment account)
            t
            (WhenOk (Adjusted s))
    unfolding adjust_opened
    Opened-Adjusted account t o =
        leads_bind (verify_chain-Audit sha256 user t) written (λ _ _ _. tt)
      where
        written :
            (u : Unit {0}) (t' : PaymentStore)
            → Audit sha256 user t (ok u) t'
            → let balance = add64 account.balance amount in
              Leads
                (if ltb_ℤ balance (pos 0)
                  then throw insufficient_points
                  else post sha256 user amount kind reason payment balance)
                t'
                (WhenOk (Adjusted s))
        written u t' (same, audit) =
            elim (Bool-cases (ltb_ℤ (add64 account.balance amount) (pos 0))) [
              | inl e ↦ rw e (leads_throw tt)
              | inr e ↦ rw (e, same) (post-Adjusted account t o audit e)
            ]

    pub adjust-Adjusted :
        Leads (adjust sha256 user amount kind reason payment) s (WhenOk (Adjusted s))
    unfolding adjust get_account open_account
    adjust-Adjusted =
        let continue = adjust_opened sha256 user amount kind reason payment in
        leads_attempt {f = λ r. open_account user r >>= continue} (
          leads_statement (λ x. (found (find_first (is_account_of user) x.accounts), x))
            (leads_throw_bind unavailable continue tt)
            (leads_bind (open-Opened user s) Opened-Adjusted (λ _ _ _. tt)))

    abbrev pub Settles : Result PointTransaction → PaymentStore → Type 0
    Settles (ok row) t = Adjusted s row t
    Settles (err _) t = t ≡ s

    -- Whatever statements fail, `AdjustAtomic` either changes nothing and returns an error, or posts
    -- one row of that amount for a user with an id other than 0, moves the user's balance by the
    -- amount (in 64 bits) to no less than 0, leaves the other balances and tables alone, and leaves a
    -- ledger that `VerifyChain` accepts; the digest has 32 bytes and the ledger less than 2^64 - 1 rows.
    pub adjust_atomic-Settles :
        Leads (adjust_atomic sha256 user amount kind reason payment) s Settles
    unfolding adjust_atomic
    adjust_atomic-Settles =
        leads_transaction (leads_weaken adjust-Adjusted (λ r t q. q)) (λ e. refl)
