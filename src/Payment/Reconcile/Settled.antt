-- ===== src/Payment/Reconcile/Settled.antt =====
-- Reconciliation looks at payments that are processing, and at no others.
use mathlib.Core.Option.{some-injective}
use pingu_coin.Base.{
  ℕ, List, [], ◌∷◌, false, some, ◌≡◌, ◌∙◌, sym, ◌==◌, ==→eq, find_first, find_first-append_some,
  find_first-holds, exists, Bool-cases, inl, inr,
}
use pingu_coin.Base.Rows.{find_first-update_elsewhere}
use pingu_coin.Base.Store.{pure}
use pingu_coin.Base.Store.Laws.{Leads, leads_query}
use pingu_coin.Base.Store.Rules.{found→some}
use pingu_coin.Base.Store.Keeps.{Keeps, Keeps-pure, Keeps-if, Keeps-bind, Keeps-query}
use pingu_coin.Flow.{Codec}
use pingu_coin.Payment.Model.{Payment, PaymentSource, PaymentStore}
use pingu_coin.Payment.Provider.{Provider, Posted, posted, failed}
use pingu_coin.Payment.Rows.{save_payment, is_payment, find_payment, pending_before}
use pingu_coin.Payment.Command.{provider_unavailable, rejection_text}
use pingu_coin.Payment.Events.{is_processing, order_of, succeeded_payment}
use pingu_coin.Payment.External.{failed_payment, store_failure}
use pingu_coin.Payment.External.Kept.{charge-Keeps, store_failure-Keeps, capture_charge-Keeps}
use pingu_coin.Payment.Reconcile.{
  reconcile_charged, reconcile_processing, reconcile_payment, reconcile_source, reconcile_all,
  reconcile,
}

-- The payment with the id is `p`.
abbrev pub Holds : ℕ → Payment → PaymentStore → Type 0
Holds id p s = find_first (is_payment id) s.payments ≡ some p

save-Holds :
    (id : ℕ) (p q : Payment)
    → (q.id == id) ≡ false
    → (s : PaymentStore) → Holds id p s
    → Holds id p (save_payment q s)
unfolding save_payment
save-Holds id p q other s h = elim (Bool-cases (exists (is_payment q.id) s.payments)) [
  | inl there ↦ rw there (
      find_first-update_elsewhere (is_payment id) (is_payment q.id) (λ _. q)
        (λ a e. rw (==→eq a.id q.id e) other) (λ _. other) s.payments
      ∙ h)
  | inr missing ↦ rw missing (find_first-append_some (is_payment id) s.payments (q ∷ []) p h)
]

module _ (sha256 : List ℕ → List ℕ) (codec : Codec) (provider : Provider) (id : ℕ)
    (p : Payment) where
  same_payments : (s t : PaymentStore) → t.payments ≡ s.payments → Holds id p s → Holds id p t
  same_payments s t e h = rw e h

  module _ (x : PaymentSource) (q : Payment) (other : (q.id == id) ≡ false) where
    charged-Keeps :
        (r : Posted) → Keeps (Holds id p) (reconcile_charged sha256 codec provider x q r)
    unfolding reconcile_charged
    charged-Keeps (failed permanent text) =
        let reason = rejection_text (provider_unavailable text) in
        Keeps-if permanent (store_failure codec (order_of codec x) reason q x) (pure tt)
          (store_failure-Keeps (Holds id p) same_payments codec (order_of codec x) q x reason
            (save-Holds id p (failed_payment q) other))
          (Keeps-pure tt)
    charged-Keeps (posted r) =
        capture_charge-Keeps (Holds id p) same_payments codec (order_of codec x) q x sha256 provider
          r.id (save-Holds id p (succeeded_payment q) other)

    processing-Keeps : Keeps (Holds id p) (reconcile_processing sha256 codec provider x q)
    unfolding reconcile_processing
    processing-Keeps =
        Keeps-bind _ _ (charge-Keeps (Holds id p) same_payments provider _) charged-Keeps

  module _ (settled : is_processing p.status ≡ false) where
    -- The payment that is looked up is another one, or not processing.
    payment-Keeps :
        (x : PaymentSource) (q : Payment) (s : PaymentStore)
        → Holds id p s
        → Holds x.payment_id q s
        → Leads (reconcile_payment sha256 codec provider x q) s (λ _ t. Holds id p t)
    unfolding reconcile_payment
    payment-Keeps x q s h found_q = elim (Bool-cases (q.id == id)) [
      | inl same ↦
          let asked =
            ==→eq q.id x.payment_id
              (find_first-holds (is_payment x.payment_id) s.payments q found_q) in
          let one = sym asked ∙ ==→eq q.id id same in
          let is_p = some-injective q p (sym found_q ∙ rw one h) in
          rw (is_p, settled) (Keeps-pure tt s h)
      | inr other ↦
          Keeps-if (is_processing q.status) (reconcile_processing sha256 codec provider x q)
            (pure tt) (processing-Keeps x q other) (Keeps-pure tt) s h
    ]

    source-Keeps :
        (x : PaymentSource) → Keeps (Holds id p) (reconcile_source sha256 codec provider x)
    unfolding reconcile_source find_payment
    source-Keeps x s h =
        leads_query _ (reconcile_payment sha256 codec provider x)
          (λ q e. payment-Keeps x q s h (found→some _ q e)) (λ _. h)

    all-Keeps :
        (xs : List PaymentSource) → Keeps (Holds id p) (reconcile_all sha256 codec provider xs)
    unfolding reconcile_all
    all-Keeps [] = Keeps-pure tt
    all-Keeps (x ∷ xs) = Keeps-bind _ _ (source-Keeps x) (λ _. all-Keeps xs)

    -- Whatever statements fail and whatever the provider answers, `ReconcileProcessing` leaves every
    -- payment alone that is not processing when it starts.
    pub reconcile-Holds :
        (before : ℕ) (s : PaymentStore)
        → Holds id p s
        → Leads (reconcile sha256 codec provider before) s (λ _ t. Holds id p t)
    unfolding reconcile pending_before
    reconcile-Holds before s h = Keeps-bind _ _ (Keeps-query _) all-Keeps s h
