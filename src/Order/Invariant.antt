-- ===== src/Order/Invariant.antt =====
-- The tables of the service fit together: keys are unique, ids fresh, and every order is announced.
use pingu_coin.Base.{
  ℕ, ◌<◌, String, List, [], ◌∷◌, ◌++◌, Bool, true, false, ◌≡◌, ◌∙◌, refl, ◌==◌, ◌&&◌, if◌then◌else◌,
  arith, exists, update_where, All, Bool-cases, inl, inr,
}
use pingu_coin.Base.Text.{◌is◌, is_refl, is_sym}
use pingu_coin.Base.Store.{Result, ok, err}
use pingu_coin.Base.Store.Laws.{Leads, leads_weaken}
use pingu_coin.Flow.{Codec, KafkaRecord}
use pingu_coin.Order.Model.{Order, OutboxEvent, OrderStore}
use pingu_coin.Order.Repository.{
  has_key, insert_event, update_order, create_or_get, inventory_row, payment_row,
}
use pingu_coin.Order.Consumer.{handle}
use pingu_coin.Order.Lifecycle.{
  RowChange, by_inventory, by_payment, RowChange-id, handle-Effect, Effect-Leads,
}
use pingu_coin.Order.Creation.{added, Ends, create_or_get-Ends}

abbrev pub Distinct : List Order → Type 0
Distinct [] = Unit
Distinct (o ∷ os) = (exists (has_key o.idempotency_key) os ≡ false) × Distinct os

abbrev pub announces : Order → OutboxEvent → Bool
announces o e = e.aggregate_id == o.id && (e.event_key is o.idempotency_key)

pub record IsSound (s : OrderStore) : Type 0 where
  pub distinct_keys : Distinct s.orders
  pub fresh_ids : All (λ o. o.id < s.next_order) s.orders
  pub announced : All (λ o. exists (announces o) s.outbox ≡ true) s.orders

exists-append :
    {A : Type 0} (p : A → Bool) (xs : List A) (a : A)
    → exists p (xs ++ a ∷ []) ≡ (if exists p xs then true else p a)
exists-append p [] a = ground arith
exists-append p (x ∷ xs) a = ground (arith, exists-append p xs a)

RowChange-key :
    {f : Order → Order} → RowChange f → (o : Order) → (f o).idempotency_key ≡ o.idempotency_key
unfolding inventory_row payment_row
RowChange-key (by_inventory b r) o = ground arith
RowChange-key (by_payment p b r) o = ground arith

exists-update :
    {f : Order → Order} (c : RowChange f) (k : String) (id : ℕ) (os : List Order)
    → exists (has_key k) (update_where (λ o. o.id == id) f os) ≡ exists (has_key k) os
exists-update c k id [] = refl
exists-update {f} c k id (o ∷ os) = elim (Bool-cases (o.id == id)) [
  | inl e ↦ rw e (rw (RowChange-key c o) (rw (exists-update c k id os) refl))
  | inr e ↦ rw e (rw (exists-update c k id os) refl)
]

-- A row that is changed keeps its key and its id, so the tables stay sound.
module _ {f : Order → Order} (c : RowChange f) (id : ℕ) where
  update-Distinct : (os : List Order) → Distinct os → Distinct (update_where (λ o. o.id == id) f os)
  update-Distinct [] h = tt
  update-Distinct (o ∷ os) h = elim (Bool-cases (o.id == id)) [
    | inl e ↦ rw e (rw (RowChange-key c o) (exists-update c _ id os ∙ h.0, update-Distinct os h.1))
    | inr e ↦ rw e (exists-update c _ id os ∙ h.0, update-Distinct os h.1)
  ]

  update-All :
      (P : ℕ → String → Type 0) (os : List Order)
      → All (λ o. P o.id o.idempotency_key) os
      → All (λ o. P o.id o.idempotency_key) (update_where (λ o. o.id == id) f os)
  update-All P [] h = tt
  update-All P (o ∷ os) h = elim (Bool-cases (o.id == id)) [
    | inl e ↦ rw e (rw (RowChange-key c o, RowChange-id c o) (h.0, update-All P os h.1))
    | inr e ↦ rw e (h.0, update-All P os h.1)
  ]

  update_order-IsSound : (s : OrderStore) → IsSound s → IsSound (update_order id f s)
  update_order-IsSound s h = record {
    distinct_keys = update-Distinct s.orders h.distinct_keys;
    fresh_ids = update-All (λ i k. i < s.next_order) s.orders h.fresh_ids;
    announced =
        update-All
          (λ i k.
            exists (λ (e : OutboxEvent). e.aggregate_id == i && (e.event_key is k)) s.outbox ≡ true)
          s.orders h.announced;
  }

handle-IsSound :
    (codec : Codec) (r : KafkaRecord) (s : OrderStore)
    → IsSound s
    → Leads (handle codec r) s (λ _ t. IsSound t)
handle-IsSound codec r s h =
    Effect-Leads (handle codec r) (λ _. h) (λ id f c. update_order-IsSound c id s h)
      (handle-Effect codec r)

neither : (b c : Bool) → (if b then true else c) ≡ false → (b ≡ false) × (c ≡ false)
neither b c h = ground arith

-- A row behind the others, with a key that none of them has.
append-Distinct :
    (os : List Order) (o : Order)
    → exists (has_key o.idempotency_key) os ≡ false
    → Distinct os
    → Distinct (os ++ o ∷ [])
append-Distinct [] o a h = (refl, tt)
append-Distinct (x ∷ os) o a h =
    let apart = neither (has_key o.idempotency_key x) _ a in
    (
      exists-append (has_key x.idempotency_key) os o
          ∙ rw (h.0, is_sym o.idempotency_key x.idempotency_key) apart.0,
      append-Distinct os o apart.1 h.1,
    )

append-All :
    {A : Type 0} (P Q : A → Type 0) (xs : List A) (a : A)
    → ((x : A) → P x → Q x)
    → All P xs
    → Q a
    → All Q (xs ++ a ∷ [])
append-All P Q [] a k h q = (q, tt)
append-All P Q (x ∷ xs) a k h q = (k x h.0, append-All P Q xs a k h.1 q)

module _ (codec : Codec) (topic : String) where
  added-IsSound :
      (c : Order) (s : OrderStore)
      → exists (has_key c.idempotency_key) s.orders ≡ false
      → IsSound s
      → IsSound (added codec topic c s)
  unfolding insert_event
  added-IsSound c s absent h = record {
    distinct_keys = append-Distinct s.orders _ absent h.distinct_keys;
    fresh_ids = append-All _ _ s.orders _ (λ o lt. omega arith) h.fresh_ids (omega arith);
    announced =
        append-All _ _ s.orders _ (λ o e. exists-append (announces o) s.outbox _ ∙ rw e refl)
          h.announced (exists-append _ s.outbox _ ∙ ground (arith, is_refl c.idempotency_key));
  }

  create_or_get-IsSound :
      (c : Order) (s : OrderStore)
      → IsSound s
      → Leads (create_or_get codec c topic) s (λ _ t. IsSound t)
  create_or_get-IsSound c s h = leads_weaken (create_or_get-Ends codec topic c s) ends
    where
      ends : (r : Result (Order × Bool)) (t : OrderStore) → Ends codec topic c s r t → IsSound t
      ends (ok (o, false)) t e = rw e.2 (added-IsSound c s e.0 h)
      ends (ok (o, true)) t e = rw e.0 h
      ends (err x) t e = rw e h

  -- `CreateOrGet` and each message keep the tables sound, whatever statements fail: no two orders
  -- have one key, every id is below the sequence, and every order has an event with its id and its
  -- key in the outbox.
  pub IsSound-kept :
      (c : Order) (r : KafkaRecord) (s : OrderStore)
      → IsSound s
      → Leads (create_or_get codec c topic) s (λ _ t. IsSound t)
        × Leads (handle codec r) s (λ _ t. IsSound t)
  IsSound-kept c r s h = (create_or_get-IsSound c s h, handle-IsSound codec r s h)
