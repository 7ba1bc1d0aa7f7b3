-- ===== src/Payment/Tests.antt =====
-- Runs on small tables.
use pingu_coin.Base.{ℕ, zero, suc, ◌+◌, ◌<◌, ◌%◌, List, [], ◌∷◌, none, ◌≡◌, ◌∙◌, refl, arith, All}
use pingu_coin.Base.Int.{pos, add64}
use pingu_coin.Base.Store.{ok, calm}
use pingu_coin.Base.Store.Laws.{Leads}
use pingu_coin.Payment.Model.{PointAccount, PointTransaction, PaymentStore, kind_credit}
use pingu_coin.Payment.Chain.{verify, verify_from, enter, cursor_after, at_genesis}
use pingu_coin.Payment.Chain.Laws.{Fits→check, verify_from-append}
use pingu_coin.Payment.Points.{
  adjust_atomic, place, seal, ledger, accounts_of, balances_match, accounts_exist, verify_chain,
}
use pingu_coin.Payment.Points.Audit.{Audited}
use pingu_coin.Payment.Points.Ledgered.{Accepted, verify_chain-Accepted}
use pingu_coin.Payment.Points.Posting.{IsDigest, posted, posted-Fits, genesis-Linkable}
use pingu_coin.Payment.Points.Adjust.{Adjusted, Settles, adjust_atomic-Settles}
use pingu_coin.Payment.Points.Completion.{adjust-succeeds}

repeat : ℕ → ℕ → List ℕ
repeat zero b = []
repeat (suc n) b = b ∷ repeat n b

repeat-All : (n b : ℕ) → b < 256 → All (λ x. x < 256) (repeat n b)
unfolding repeat
repeat-All zero b h = tt
repeat-All (suc n) b h = (h, repeat-All n b h)

-- The sum of the bytes, 32 times.
sum_bytes : List ℕ → ℕ
sum_bytes [] = 0
sum_bytes (b ∷ bs) = (b + sum_bytes bs) % 256

pub toy : List ℕ → List ℕ
unfolding sum_bytes repeat
toy bs = repeat 32 (sum_bytes bs % 256)

pub toy-IsDigest : IsDigest toy
unfolding toy repeat
toy-IsDigest = record {
  sized = λ bs. refl;
  bytewise = λ bs. repeat-All 32 (sum_bytes bs % 256) (omega arith);
}

abbrev pub nobody : PaymentStore
nobody = record {
  payments = [];
  next_payment = 1;
  sources = [];
  next_source = 1;
  accounts = record { user_id = 7; balance = pos 0 } ∷ [];
  transactions = [];
  next_transaction = 1;
  refunds = [];
  next_refund = 1;
  outbox = [];
  next_event = 1;
  receipts = [];
  calls = [];
  acknowledged = [];
}

-- A row of user 7.
abbrev pub first_row : PointTransaction
first_row = posted toy toy-IsDigest 1 7 (pos 500) kind_credit "top-up" none (pos 500) none

first_row-accepted : verify_from toy (at_genesis 7) (first_row ∷ []) ≡ none
unfolding place seal enter cursor_after add64 verify_from
first_row-accepted =
    verify_from-append toy (at_genesis 7) [] first_row refl
    ∙ Fits→check toy first_row (at_genesis 7) (
        posted-Fits toy toy-IsDigest 1 7 (pos 500) kind_credit "top-up" none (pos 500) none refl
          (genesis-Linkable toy toy-IsDigest))

nobody-Audited : Audited toy 7 nobody
unfolding ledger accounts_of verify balances_match accounts_exist
nobody-Audited = record { chain = refl; matched = refl; owned = refl }

pub seven : ¬ (◌≡◌ {A = ℕ} 7 0)
seven e = omega (arith, e)

adjust_atomic-Settles_example :
    Leads
      (adjust_atomic toy 7 (pos 500) kind_credit "top-up" none)
      nobody
      (Settles toy toy-IsDigest 7 (pos 500) kind_credit "top-up" none nobody seven (omega arith))
adjust_atomic-Settles_example =
    adjust_atomic-Settles toy toy-IsDigest 7 (pos 500) kind_credit "top-up" none nobody seven
      (omega arith)

verify_chain-Accepted_example : Leads (verify_chain toy 7) nobody (Accepted toy 7 nobody seven)
verify_chain-Accepted_example = verify_chain-Accepted toy 7 nobody seven

abbrev account : PointAccount
account = record { user_id = 7; balance = pos 0 }

adjust-succeeds_example :
    (row : PointTransaction) × (t : PaymentStore) × (adjust_atomic toy 7
        (pos 500)
        kind_credit
        "top-up"
        none
        (calm nobody)
      ≡ (ok row, calm t))
    × Adjusted toy toy-IsDigest 7 (pos 500) kind_credit "top-up" none nobody row t
unfolding add64
adjust-succeeds_example =
    adjust-succeeds toy toy-IsDigest 7 (pos 500) kind_credit "top-up" none nobody seven
      (omega arith) account nobody-Audited refl refl refl
