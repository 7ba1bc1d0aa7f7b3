-- ===== src/Payment/Create/Backed.antt =====
-- The provider is asked for money only behind a payment that is stored.
use pingu_coin.Base.{
  ℕ, String, List, true, ◌≡◌, ◌∙◌, refl, arith, find_first, exists, Bool-cases, inl, inr, ◌⊎◌,
}
use pingu_coin.Base.Rows.{exists-append, exists-replaced}
use pingu_coin.Base.Text.{◌is◌, is_refl}
use pingu_coin.Base.Store.{Result, ok, err, Error, unavailable, throw}
use pingu_coin.Base.Store.Laws.{
  Leads, WhenOk, leads_bind, leads_pure, leads_throw, leads_statement, leads_transaction,
  leads_weaken, leads_attempt,
}
use pingu_coin.Base.Store.Rules.{leads_attempt_found}
use pingu_coin.Base.Store.Keeps.{
  Keeps, Keeps-pure, Keeps-throw, Keeps-if, Keeps-bind, Keeps-modify, Keeps-transaction,
}
use pingu_coin.Flow.{Codec}
use pingu_coin.Payment.Model.{Payment, PaymentStatus, PaymentSource, PaymentStore}
use pingu_coin.Payment.Calls.{ChargeResult}
use pingu_coin.Payment.Provider.{Provider, Posted, posted, failed}
use pingu_coin.Payment.Rows.{
  insert_payment, insert_source, save_payment, has_payment_key, is_payment, find_by_key,
}
use pingu_coin.Payment.Command.{
  CreatePaymentCommand, CreatePaymentResult, provider_unavailable, rejection_text, new_payment,
}
use pingu_coin.Payment.Events.{succeeded_payment}
use pingu_coin.Payment.PointPayment.{replay_or}
use pingu_coin.Payment.Create.Replay.{Replayed, replay-Replayed}
use pingu_coin.Payment.External.{
  new_source, attach_source, open_external, refuse_charge, await_action, capture_new,
  charge_answered, charge_request, charge_opened, create_stripe, failed_payment, awaiting_source,
}
use pingu_coin.Payment.External.Kept.{
  charge-Keeps, store_failure-Keeps, capture_charge-Keeps, enqueue_action_required-Keeps,
  save_source-Keeps,
}

abbrev pub HasKey : String → PaymentStore → Type 0
HasKey key s = exists (has_payment_key key) s.payments ≡ true

save-HasKey :
    (key : String) (q : Payment)
    → has_payment_key key q ≡ true
    → (s : PaymentStore) → HasKey key s
    → HasKey key (save_payment q s)
unfolding save_payment
save-HasKey key q own s h = elim (Bool-cases (exists (is_payment q.id) s.payments)) [
  | inl there ↦
      rw there (exists-replaced (has_payment_key key) (is_payment q.id) q own s.payments h)
  | inr missing ↦ rw missing (exists-append (has_payment_key key) s.payments q ∙ rw h refl)
]

module _ (sha256 : List ℕ → List ℕ) (codec : Codec) (provider : Provider) (return_url : String)
    (c : CreatePaymentCommand) where
  same_payments :
      (s t : PaymentStore)
      → t.payments ≡ s.payments
      → HasKey c.idempotency_key s
      → HasKey c.idempotency_key t
  same_payments s t e h = rw e h

  module _ (p : Payment) (x : PaymentSource)
      (own : has_payment_key c.idempotency_key p ≡ true) where
    refuse-Keeps :
        (text : String) → Keeps (HasKey c.idempotency_key) (refuse_charge codec c text p x)
    unfolding refuse_charge
    refuse-Keeps text =
        Keeps-bind _ _
          (store_failure-Keeps (HasKey c.idempotency_key) same_payments codec c.order p x
            (rejection_text (provider_unavailable text))
            (save-HasKey c.idempotency_key (failed_payment p) own))
          (λ _. Keeps-pure _)

    await-Keeps : (r : ChargeResult) → Keeps (HasKey c.idempotency_key) (await_action codec c r p x)
    unfolding await_action
    await-Keeps r =
        Keeps-bind _ _
          (Keeps-transaction _ (
            Keeps-bind _ _
              (Keeps-modify _
                (save_source-Keeps (HasKey c.idempotency_key) same_payments (awaiting_source r x)))
              (λ _.
                enqueue_action_required-Keeps (HasKey c.idempotency_key) same_payments codec p
                  c.order c.idempotency_key r.action_url)))
          (λ _. Keeps-pure _)

    capture-Keeps :
        (reference : String)
        → Keeps (HasKey c.idempotency_key) (capture_new sha256 codec provider c reference p x)
    unfolding capture_new
    capture-Keeps reference =
        Keeps-bind _ _
          (capture_charge-Keeps (HasKey c.idempotency_key) same_payments codec c.order p x sha256
            provider reference (save-HasKey c.idempotency_key (succeeded_payment p) own))
          (λ _. Keeps-pure _)

    answered-Keeps :
        (r : Posted)
        → Keeps (HasKey c.idempotency_key) (charge_answered sha256 codec provider c p x r)
    unfolding charge_answered
    answered-Keeps (failed permanent text) =
        Keeps-if permanent (refuse_charge codec c text p x) (throw Error.provider_failed)
          (refuse-Keeps text) (Keeps-throw _)
    answered-Keeps (posted r) =
        Keeps-if (r.status is "requires_action") (await_action codec c r p x)
          (capture_new sha256 codec provider c r.id p x) (await-Keeps r) (capture-Keeps r.id)

  -- Either the provider was sent nothing, or there is a payment with the key.
  abbrev pub Backed : PaymentStore → Result CreatePaymentResult → PaymentStore → Type 0
  Backed s r t = (t.calls ≡ s.calls) ⊎ HasKey c.idempotency_key t

  abbrev Opened : PaymentStore → Result (Payment × PaymentSource) → PaymentStore → Type 0
  Opened s (ok (p, x)) t = (has_payment_key c.idempotency_key p ≡ true) × HasKey c.idempotency_key t
  Opened s (err _) t = t ≡ s

  abbrev Inserted : Payment → PaymentStore → Type 0
  Inserted p t = (has_payment_key c.idempotency_key p ≡ true) × HasKey c.idempotency_key t

  insert-Inserted :
      (s : PaymentStore)
      → let (r, t) = insert_payment (new_payment c PaymentStatus.processing) s in
        WhenOk Inserted r t
  unfolding insert_payment
  insert-Inserted s = elim (Bool-cases (exists (has_payment_key c.idempotency_key) s.payments)) [
    | inl taken ↦ rw taken tt
    | inr fresh ↦ rw fresh (
      is_refl c.idempotency_key,
      exists-append (has_payment_key c.idempotency_key) s.payments
            (record (new_payment c PaymentStatus.processing) { id = s.next_payment })
          ∙ rw (fresh, is_refl c.idempotency_key) refl,
    )
  ]

  insert_source-keeps :
      (x : PaymentSource) (t : PaymentStore)
      → HasKey c.idempotency_key t
      → HasKey c.idempotency_key (insert_source x t).1
  unfolding insert_source
  insert_source-keeps x t h = ground (arith, h)

  attach-Opened :
      (now : ℕ) (p : Payment) (s t : PaymentStore)
      → Inserted p t
      → Leads (attach_source codec c now p) t (WhenOk (λ px u. Opened s (ok px) u))
  unfolding attach_source
  attach-Opened now p s t i =
      leads_bind {P = λ _ u. HasKey c.idempotency_key u}
        (leads_statement _ i.1
          (insert_source-keeps (record (new_source codec c now) { payment_id = p.id }) t i.1))
        (λ x u h. leads_pure (i.0, h)) (λ _ _ _. tt)

  open-Opened : (now : ℕ) (s : PaymentStore) → Leads (open_external codec c now) s (Opened s)
  unfolding open_external
  open-Opened now s =
      leads_transaction
        (leads_bind {P = WhenOk Inserted} (leads_statement _ tt (insert-Inserted s))
          (λ p t i. attach-Opened now p s t i) (λ _ _ _. tt))
        (λ _. refl)

  Replayed-calls :
      (p : Payment) (s : PaymentStore) (r : Result CreatePaymentResult) (t : PaymentStore)
      → Replayed p s r t
      → t.calls ≡ s.calls
  Replayed-calls p s (ok r) t q = rw q.2 refl
  Replayed-calls p s (err e) t q = rw q.1 refl

  replay_or-Backed :
      (e : Error) (r : Result Payment) (s : PaymentStore)
      → Leads (replay_or sha256 codec e r) s (Backed s)
  unfolding replay_or
  replay_or-Backed e (ok p) s =
      leads_weaken (replay-Replayed p s) (λ r t q. inl (Replayed-calls p s r t q))
  replay_or-Backed e (err _) s = leads_throw (inl refl)

  Opened-Backed :
      (r : Result (Payment × PaymentSource)) (s t : PaymentStore)
      → Opened s r t
      → Leads (charge_opened sha256 codec provider return_url c r) t (Backed s)
  unfolding charge_opened find_by_key
  Opened-Backed (ok (p, x)) s t o =
      leads_weaken
        (Keeps-bind _ _
          (charge-Keeps (HasKey c.idempotency_key) same_payments provider
            (charge_request sha256 codec provider return_url c))
          (answered-Keeps p x o.0) t o.1)
        (λ r u h. inr h)
  Opened-Backed (err e) s t o = rw o (
      leads_attempt_found (λ x. find_first (has_payment_key c.idempotency_key) x.payments)
        (replay_or sha256 codec e) (replay_or-Backed e _ s)
        (replay_or-Backed e (err unavailable) s))

  -- Whatever statements fail and whatever the provider answers, `createStripe` either sends the
  -- provider nothing, or leaves a stored payment with the key of the command.
  pub create_stripe-Backed :
      (now : ℕ) (s : PaymentStore)
      → Leads (create_stripe sha256 codec provider return_url c now) s (Backed s)
  unfolding create_stripe
  create_stripe-Backed now s =
      leads_attempt {f = charge_opened sha256 codec provider return_url c}
        (leads_weaken (open-Opened now s) (λ r t o. Opened-Backed r s t o))
