-- ===== src/Payment/Server/Cancel.antt =====
-- `CancelPayment` on every branch.
use pingu_coin.Base.{true, some, ◌≡◌, refl, find_first, exists}
use pingu_coin.Base.Rows.{find_first-replaced}
use pingu_coin.Base.Store.{Result, ok, err}
use pingu_coin.Base.Rpc.{Reply, reply, refuse}
use pingu_coin.Base.Store.Keeps.{Keeps}
use pingu_coin.Flow.{Codec}
use pingu_coin.Payment.Model.{PaymentStatus, Payment, PaymentStore}
use pingu_coin.Payment.Provider.{Provider}
use pingu_coin.Payment.Rows.{is_payment, save_payment}

pub saved-found :
    (q : Payment) (s : PaymentStore)
    → exists (is_payment q.id) s.payments ≡ true
    → find_first (is_payment q.id) (save_payment q s).payments ≡ some q
unfolding save_payment
saved-found q s there = rw there (find_first-replaced (λ x. x.id) q.id q refl s.payments there)

-- The statuses of a payment that may still be canceled.
pub data Open : PaymentStatus → Type 0 where
  waits : Open PaymentStatus.pending
  runs : Open PaymentStatus.processing

module _ (codec : Codec) (provider : Provider) (s : PaymentStore) (p : Payment) where
  -- The payment with the status canceled and nothing else changed.
  abbrev pub withdrawn : Payment
  withdrawn = record p { status = PaymentStatus.canceled }

  abbrev Same : PaymentStore → Type 0
  Same t = t.payments ≡ s.payments

  abbrev Taken : PaymentStore → Type 0
  Taken t = find_first (is_payment p.id) t.payments ≡ some withdrawn

  -- The payment is canceled, or no payment has changed.
  abbrev pub Ends : Result Payment → PaymentStore → Type 0
  Ends (ok q) t = (q ≡ withdrawn) × Taken t
  Ends (err _) t = Same t

  abbrev pub Answered : Result (Reply Payment) → PaymentStore → Type 0
  Answered (ok (reply q)) t = Open p.status × (q ≡ withdrawn) × Taken t
  Answered (ok (refuse _ _)) t = Same t
  Answered (err _) t = Same t
