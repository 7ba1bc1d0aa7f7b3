-- ===== src/Payment/Points/Keeps.antt =====
-- What the tables of points do not decide survives every change of the points.
use pingu_coin.Base.{ℕ, String, List, Option, some, ◌≡◌, refl, arith}
use pingu_coin.Base.Int.{ℤ, pos, add64, ltb_ℤ}
use pingu_coin.Base.Text.{◌is◌, ◌<>◌, decimal}
use pingu_coin.Base.Store.{Result, ok, err, Error, ◌>>=◌, ◌>>◌, insufficient_points, throw, pure}
use pingu_coin.Base.Store.Laws.{leads_weaken}
use pingu_coin.Base.Store.Keeps.{
  Keeps, Keeps-pure, Keeps-throw, Keeps-query, Keeps-statement, Keeps-if, Keeps-modify, Keeps-bind,
  Keeps-attempt,
}
use pingu_coin.Payment.Model.{
  Payment, PaymentStore, PointAccount, PointTransaction, kind_credit, purpose_point_topup,
}
use pingu_coin.Payment.Points.{
  get_account, open_account, insert_account, verify_chain, post, adjust_opened, adjust,
  insert_entry, set_balance, seal, place, draft,
}
use pingu_coin.Payment.Points.Audit.{Audit, verify_chain-Audit}
use pingu_coin.Payment.Events.{top_up}

-- Apart from accounts and rows of ledgers, the tables are the same.
pub record Untouched (s t : PaymentStore) : Type 0 where
  pub payments : t.payments ≡ s.payments
  pub sources : t.sources ≡ s.sources
  pub refunds : t.refunds ≡ s.refunds
  pub outbox : t.outbox ≡ s.outbox
  pub receipts : t.receipts ≡ s.receipts
  pub calls : t.calls ≡ s.calls

module _ (I : PaymentStore → Type 0) (free : (s t : PaymentStore) → Untouched s t → I s → I t) where
  insert_account-keeps : (user : ℕ) (s : PaymentStore) → I s → I (insert_account user s).1
  unfolding insert_account
  insert_account-keeps user s m =
      free s (insert_account user s).1
        (record {
          payments = ground arith;
          sources = ground arith;
          refunds = ground arith;
          outbox = ground arith;
          receipts = ground arith;
          calls = ground arith;
        })
        m

  insert_entry-keeps : (t : PointTransaction) (s : PaymentStore) → I s → I (insert_entry t s).1
  unfolding insert_entry
  insert_entry-keeps t s m =
      free s (insert_entry t s).1
        (record {
          payments = ground arith;
          sources = ground arith;
          refunds = ground arith;
          outbox = ground arith;
          receipts = ground arith;
          calls = ground arith;
        })
        m

  open_account-Keeps : (user : ℕ) (r : Result PointAccount) → Keeps I (open_account user r)
  unfolding open_account
  open_account-Keeps user (ok a) = Keeps-pure a
  open_account-Keeps user (err Error.record_not_found) =
      Keeps-statement (insert_account user) (insert_account-keeps user)
  open_account-Keeps user (err Error.unavailable) = Keeps-throw _
  open_account-Keeps user (err Error.duplicated_key) = Keeps-throw _
  open_account-Keeps user (err Error.insufficient_points) = Keeps-throw _
  open_account-Keeps user (err Error.chain_integrity) = Keeps-throw _
  open_account-Keeps user (err Error.insufficient_stock) = Keeps-throw _
  open_account-Keeps user (err Error.idempotency_conflict) = Keeps-throw _
  open_account-Keeps user (err Error.bad_payload) = Keeps-throw _
  open_account-Keeps user (err Error.invalid_event) = Keeps-throw _
  open_account-Keeps user (err Error.provider_failed) = Keeps-throw _

  module _ (sha256 : List ℕ → List ℕ) where
    verify_chain-Keeps : (user : ℕ) → Keeps I (verify_chain sha256 user)
    verify_chain-Keeps user s m = leads_weaken (verify_chain-Audit sha256 user s) unchanged
      where
        unchanged : (r : Result (Unit {0})) (t : PaymentStore) → Audit sha256 user s r t → I t
        unchanged (ok _) t q = rw q.0 m
        unchanged (err _) t q = rw q m

    post-Keeps :
        (user : ℕ) (amount : ℤ) (kind reason : String) (payment : Option ℕ) (balance : ℤ)
        → Keeps I (post sha256 user amount kind reason payment balance)
    unfolding post set_balance
    post-Keeps user amount kind reason payment balance =
        Keeps-bind _ _
          (Keeps-modify _ (λ s m.
            free s _
              (record {
                payments = refl;
                sources = refl;
                refunds = refl;
                outbox = refl;
                receipts = refl;
                calls = refl;
              })
              m))
          (λ _. Keeps-bind _ _ (Keeps-query _) (λ previous. Keeps-statement _ (
            insert_entry-keeps
              (seal sha256 (place (draft user amount kind reason payment balance) previous)))))

    adjust_opened-Keeps :
        (user : ℕ) (amount : ℤ) (kind reason : String) (payment : Option ℕ) (account : PointAccount)
        → Keeps I (adjust_opened sha256 user amount kind reason payment account)
    unfolding adjust_opened
    adjust_opened-Keeps user amount kind reason payment account =
        let balance = add64 account.balance amount in
        Keeps-bind _ _ (verify_chain-Keeps user) (λ _.
          Keeps-if (ltb_ℤ balance (pos 0)) (throw insufficient_points)
            (post sha256 user amount kind reason payment balance) (Keeps-throw insufficient_points)
            (post-Keeps user amount kind reason payment balance))

    pub adjust-Keeps :
        (user : ℕ) (amount : ℤ) (kind reason : String) (payment : Option ℕ)
        → Keeps I (adjust sha256 user amount kind reason payment)
    unfolding adjust get_account
    adjust-Keeps user amount kind reason payment =
        let continue = adjust_opened sha256 user amount kind reason payment in
        Keeps-attempt _ (λ r. open_account user r >>= continue) (Keeps-query _)
          (λ r.
            Keeps-bind _ continue (open_account-Keeps user r)
              (adjust_opened-Keeps user amount kind reason payment))

    pub top_up-Keeps : (payment : Payment) → Keeps I (top_up sha256 payment)
    unfolding top_up
    top_up-Keeps payment =
        let credit =
          adjust sha256 payment.user_id payment.amount kind_credit
            ("point top-up #" <> decimal payment.id) (some payment.id) in
        Keeps-if (payment.purpose is purpose_point_topup) (do credit; pure tt) (pure tt)
          (Keeps-bind credit _ (adjust-Keeps _ _ _ _ _) (λ _. Keeps-pure tt)) (Keeps-pure tt)
