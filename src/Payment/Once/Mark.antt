-- ===== src/Payment/Once/Mark.antt =====
-- The receipt of a webhook, and the source that it is about, survive changes of the points.
use pingu_coin.Base.{ℕ, List, true, some, ◌≡◌, find_first, exists}
use pingu_coin.Base.Store.Keeps.{Keeps}
use pingu_coin.Payment.Model.{Payment, PaymentSource, PaymentStore}
use pingu_coin.Payment.Points.Keeps.{top_up-Keeps}
use pingu_coin.Payment.Rows.{has_reference, is_receipt}
use pingu_coin.Payment.Events.{ProviderEvent, top_up}

-- The source that is found by its reference has the provider and the id of `x`, and the event has
-- its receipt.
pub record Marked (x : PaymentSource) (event : ProviderEvent) (s : PaymentStore) : Type 0 where
  pub received : exists (is_receipt x.provider event.id) s.receipts ≡ true
  pub row : PaymentSource
  pub looked_up : find_first (has_reference event.charge_id) s.sources ≡ some row
  pub same_provider : row.provider ≡ x.provider
  pub same_id : row.id ≡ x.id

-- What keeps the two tables keeps the mark.
pub Same-Marked :
    (x : PaymentSource) (event : ProviderEvent) (s t : PaymentStore)
    → t.receipts ≡ s.receipts
    → t.sources ≡ s.sources
    → Marked x event s
    → Marked x event t
Same-Marked x event s t receipts sources m = record {
  received = rw receipts m.received;
  row = m.row;
  looked_up = rw sources m.looked_up;
  same_provider = m.same_provider;
  same_id = m.same_id;
}

module _ (x : PaymentSource) (event : ProviderEvent) (sha256 : List ℕ → List ℕ) where
  pub top_up-Marked : (payment : Payment) → Keeps (Marked x event) (top_up sha256 payment)
  top_up-Marked =
      top_up-Keeps (Marked x event)
        (λ s t same m. Same-Marked x event s t same.receipts same.sources m) sha256
