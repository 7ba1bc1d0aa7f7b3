-- ===== src/Order/Lifecycle.antt =====
-- What messages do to the status of an order: the transitions, and in which orders of arrival.
use pingu_coin.Base.{
  ℕ, String, List, [], ◌∷◌, Bool, true, false, Option, none, some, ◌≡◌, refl, ◌==◌, if◌then◌else◌,
  arith, find_first, update_where, Bool-cases, inl, inr, ◌||◌,
}
use mathlib.Core.Option
use pingu_coin.Base.Store.{
  Result, ok, err, M, pure, throw, statement, modify, bad_payload, unavailable,
}
use pingu_coin.Base.Text.{◌is◌, bytes}
use pingu_coin.Base.Store.Laws.{Leads, leads_statement, leads_throw, leads_pure}
use pingu_coin.Flow.{
  KafkaRecord, Codec, InventoryResult, PaymentResult, topic_inventory_reserved,
  topic_inventory_rejected, topic_payment_succeeded, topic_payment_failed,
  topic_payment_action_required,
}
use pingu_coin.Order.Model.{
  OrderStatus, pending, inventory_pending, payment_pending, payment_action_required, paid, failed,
  processing, Order, OrderStore,
}
use pingu_coin.Order.Repository.{
  inventory_row, payment_row, write_action, fits_column, update_order,
  apply_payment_action_required,
}
use pingu_coin.Order.Consumer.{handle, handle_inventory, handle_payment}

-- The row that `First(&order, id)` reads.
abbrev pub row : ℕ → OrderStore → Option Order
row id s = find_first (λ o. o.id == id) s.orders

-- How a message can change the status of an order.
infix 40 ◌⟶◌
pub data ◌⟶◌ : OrderStatus → OrderStatus → Type 0 where
  stays : {a : OrderStatus} → a ⟶ a
  reserves : pending ⟶ payment_pending
  reserves_late : inventory_pending ⟶ payment_pending
  rejects : pending ⟶ failed
  rejects_late : inventory_pending ⟶ failed
  pays : pending ⟶ paid
  pays_reserved : payment_pending ⟶ paid
  pays_confirmed : payment_action_required ⟶ paid
  declines : payment_pending ⟶ failed
  declines_confirmed : payment_action_required ⟶ failed

ruleset edges = (
  stays, reserves, reserves_late, rejects, rejects_late, pays, pays_reserved, pays_confirmed,
  declines, declines_confirmed,
)

-- The change that a message makes to the row of its order.
pub data RowChange : (Order → Order) → Type 0 where
  by_inventory : (reserved : Bool) (reason : String) → RowChange (inventory_row reserved reason)
  by_payment :
      (payment : ℕ) (succeeded : Bool) (reason : String)
      → RowChange (payment_row payment succeeded reason)

pub RowChange-⟶ : {f : Order → Order} → RowChange f → (o : Order) → o.status ⟶ (f o).status
unfolding inventory_row payment_row
RowChange-⟶ (by_inventory b r) o = grind (arith, edges)
RowChange-⟶ (by_payment p b r) o = grind (arith, edges)

pub RowChange-id : {f : Order → Order} → RowChange f → (o : Order) → (f o).id ≡ o.id
unfolding inventory_row payment_row
RowChange-id (by_inventory b r) o = ground arith
RowChange-id (by_payment p b r) o = ground arith

abbrev pub is_settled : OrderStatus → Bool
is_settled paid = true
is_settled failed = true
is_settled processing = true
is_settled _ = false

pub RowChange-settled :
    {f : Order → Order} → RowChange f → (o : Order) → is_settled o.status ≡ true → f o ≡ o
unfolding inventory_row payment_row
RowChange-settled (by_inventory b r) o h = ground arith
RowChange-settled (by_payment p b r) o h = ground arith

pub RowChange-again : {f : Order → Order} → RowChange f → (o : Order) → f (f o) ≡ f o
unfolding inventory_row payment_row
RowChange-again (by_inventory b r) o = ground arith
RowChange-again (by_payment p b r) o = ground arith

-- What handling a message comes to: nothing, an error, a statement that the database refuses, or
-- one such change to one row.
pub data Effect (m : M OrderStore (Unit {0})) : Type 0 where
  nothing : m ≡ pure tt → Effect m
  refuses : m ≡ throw bad_payload → Effect m
  fails : m ≡ statement (λ s. (err unavailable, s)) → Effect m
  changes : (id : ℕ) (f : Order → Order) → RowChange f → m ≡ modify (update_order id f) → Effect m

inventory-Effect : (t : String) (e : Option InventoryResult) → Effect (handle_inventory t e)
unfolding handle_inventory
inventory-Effect t none = refuses refl
inventory-Effect t (some e) = changes _ _ (by_inventory _ _) refl

payment-Effect : (t : String) (e : Option PaymentResult) → Effect (handle_payment t e)
unfolding handle_payment apply_payment_action_required write_action fits_column bytes
payment-Effect t none = refuses refl
payment-Effect t (some e) = elim (Bool-cases (t is topic_payment_action_required)) [
  | inl asks_for ↦ rw asks_for (fails refl)
  | inr result ↦ rw result (changes _ _ (by_payment _ _ _) refl)
]

pub handle-Effect : (codec : Codec) (r : KafkaRecord) → Effect (handle codec r)
unfolding handle
handle-Effect codec r =
    elim (Bool-cases (r.topic is topic_inventory_reserved || r.topic is topic_inventory_rejected)) [
      | inl inventory ↦ rw inventory (inventory-Effect r.topic (codec.decode_inventory r.value))
      | inr other ↦
          rw other
            (elim (Bool-cases (
              r.topic is topic_payment_succeeded
              || r.topic is topic_payment_failed
              || r.topic is topic_payment_action_required)) [
                | inl payment ↦ rw payment (payment-Effect r.topic (codec.decode_payment r.value))
                | inr unknown ↦ rw unknown (nothing refl)
              ])
    ]

-- So a postcondition holds if it holds of the rows unchanged and after such a change.
pub Effect-Leads :
    {Q : Result (Unit {0}) → OrderStore → Type 0} {s : OrderStore} (m : M OrderStore (Unit {0}))
    → ((x : Result (Unit {0})) → Q x s)
    → ((id : ℕ) (f : Order → Order) → RowChange f → Q (ok tt) (update_order id f s))
    → Effect m
    → Leads m s Q
Effect-Leads m same change (nothing e) = rw e (leads_pure (same _))
Effect-Leads m same change (refuses e) = rw e (leads_throw (same _))
Effect-Leads m same change (fails e) = rw e (leads_statement _ (same _) (same _))
Effect-Leads m same change (changes id f c e) = rw e (leads_statement _ (same _) (change id f c))

-- What an update leaves of the row with an id.
pub row-update_order :
    (id j : ℕ) (f : Order → Order) (s : OrderStore)
    → ((o : Order) → (f o).id ≡ o.id)
    → row id (update_order j f s) ≡ Option.map (λ o. if o.id == j then f o else o) (row id s)
row-update_order id j f s keep = go s.orders
  where
    go :
        (os : List Order)
        → find_first (λ o. o.id == id) (update_where (λ o. o.id == j) f os)
          ≡ Option.map (λ o. if o.id == j then f o else o) (find_first (λ o. o.id == id) os)
    go [] = refl
    go (o ∷ os) = ground (arith, go os, keep o)

-- A settled order is not changed: a row with the status paid, failed or processing stands as it is
-- after any message, whatever statements fail.
pub handle-settled :
    (codec : Codec) (r : KafkaRecord) (s : OrderStore) (id : ℕ) (o : Order)
    → row id s ≡ some o
    → is_settled o.status ≡ true
    → Leads (handle codec r) s (λ _ t. row id t ≡ some o)
handle-settled codec r s id o found_row settled =
    Effect-Leads (handle codec r) (λ _. found_row) changed (handle-Effect codec r)
  where
    changed : (j : ℕ) (f : Order → Order) → RowChange f → row id (update_order j f s) ≡ some o
    changed j f c =
        ground (arith, row-update_order id j f s (RowChange-id c), RowChange-settled c o settled)

-- Every message moves every order along an edge of the diagram, whatever statements fail, and
-- loses none.
pub handle-⟶ :
    (codec : Codec) (r : KafkaRecord) (s : OrderStore) (id : ℕ) (o : Order)
    → row id s ≡ some o
    → Leads (handle codec r) s (λ _ t. (o' : Order) × (row id t ≡ some o') × (o.status ⟶ o'.status))
handle-⟶ codec r s id o found_row =
    Effect-Leads (handle codec r) (λ _. (o, found_row, stays)) changed (handle-Effect codec r)
  where
    changed :
        (j : ℕ) (f : Order → Order)
        → RowChange f
        → (o' : Order) × (row id (update_order j f s) ≡ some o') × (o.status ⟶ o'.status)
    changed j f c = elim (Bool-cases (o.id == j)) [
      | inl e ↦ (f o, ground (arith, row-update_order id j f s (RowChange-id c)), RowChange-⟶ c o)
      | inr e ↦ (o, ground (arith, row-update_order id j f s (RowChange-id c)), stays)
    ]
