-- ===== src/Inventory/Reservation.antt =====
-- An order's stock is reserved once and released once, and the answer to an order is true.
use pingu_coin.Base.{
  ℕ, String, [], ◌∷◌, ◌++◌, Bool, true, false, ◌≡◌, ◌≢◌, ◌∙◌, ap, refl, arith, Bool-cases, inl, inr,
  some, if◌then◌else◌, ◌⊎◌, ◌==◌, ==→eq,
}
use pingu_coin.Base.Int.{ℤ, pos, add64, neg64, ltb_ℤ, InRange, wrap64, to_bits, ◌+ℤ◌, ◌-ℤ◌}
use pingu_coin.Base.Text.{◌is◌}
use pingu_coin.Base.Store.{Result, ok, err, Error, ◌>>=◌}
use pingu_coin.Base.Store.Laws.{
  Leads, WhenOk, leads_bind, leads_statement, leads_throw, leads_attempt, leads_weaken,
}
use pingu_coin.Flow.{Codec, OrderCreated, topic_inventory_reserved, topic_inventory_rejected}
use pingu_coin.Inventory.Model.{Inventory, InventoryStore}
use pingu_coin.Inventory.Repository.{adjust_context}
use pingu_coin.Inventory.Consumer.{reserve, answer_order, produce, inventory_message, decrement_key}
use pingu_coin.Inventory.Stock.{stock_of, seen, IsStocked, Adjusts}
use pingu_coin.Inventory.Adjustment.{Adjustment, adjust_context-Adjustment}

add64-neg64 : (q n : ℤ) → InRange q → add64 (add64 q (neg64 n)) n ≡ q
unfolding add64 neg64 wrap64 to_bits ◌+ℤ◌ ◌-ℤ◌
add64-neg64 q n h = ground arith

-- What is left of a product's stock when a change of it is taken back.
pub taken_back :
    (p : ℕ) (n : ℤ) (k k' : String) (s t u : InventoryStore) (a b : Inventory × Bool)
    → InRange (stock_of p s)
    → seen k s ≡ false
    → seen k' t ≡ false
    → Adjusts p (neg64 n) k s a t
    → Adjusts p n k' t b u
    → (q : ℕ) → stock_of q u ≡ stock_of q s
taken_back p n k k' s t u a b range new new' down up q = elim (Bool-cases (q == p)) [
  | inl same ↦
      let there : stock_of p u ≡ stock_of p s =
        (rw new' at up.adjusted)
        ∙ ap (λ z. add64 z n) (rw new at down.adjusted)
        ∙ add64-neg64 (stock_of p s) n range in
      rw (==→eq q p same) there
  | inr other ↦ up.others q (apart other) ∙ down.others q (apart other)
]
  where
    apart : (q == p) ≡ false → q ≢ p
    apart h e = ground arith

module _ (p : ℕ) (n : ℤ) (r r' k k' : String) (s : InventoryStore) where
  -- An adjustment and its opposite under another key, both new, leave every product's stock as it
  -- was, on sound tables with a stock that fits 64 bits, whatever statements fail, if both go through.
  pub adjust_context-undone :
      IsStocked s
      → InRange (stock_of p s)
      → seen k s ≡ false
      → seen k' s ≡ false
      → (k' is k) ≡ false
      → Leads
          (adjust_context p (neg64 n) r k >>= λ _. adjust_context p n r' k')
          s
          (WhenOk (λ _ u. (q : ℕ) → stock_of q u ≡ stock_of q s))
  adjust_context-undone sound range new new' apart =
      leads_bind (adjust_context-Adjustment p (neg64 n) r k s sound) again (λ _ _ _. tt)
    where
      again :
          (a : Inventory × Bool) (t : InventoryStore)
          → Adjusts p (neg64 n) k s a t
          → Leads
              (adjust_context p n r' k')
              t
              (WhenOk (λ _ u. (q : ℕ) → stock_of q u ≡ stock_of q s))
      again a t down = leads_weaken (adjust_context-Adjustment p n r' k' t down.sound) closing
        where
          closing :
              (x : Result (Inventory × Bool)) (u : InventoryStore)
              → Adjustment p n r' k' t x u
              → WhenOk (λ _ u. (q : ℕ) → stock_of q u ≡ stock_of q s) x u
          closing (ok b) u up =
              taken_back p n k k' s t u a b range new (down.other_keys k' apart ∙ new') down up
          closing (err e) u h = tt

module _ (codec : Codec) (event : OrderCreated) (s : InventoryStore) where
  -- The order's stock is taken, and a message says so.
  pub record Reserved (t : InventoryStore) : Type 0 where
    pub announced :
        t.acknowledged
        ≡ s.acknowledged ++ inventory_message codec event topic_inventory_reserved "" ∷ []
    pub sound : IsStocked t
    pub taken : seen (decrement_key event) t ≡ true
    pub stock : stock_of event.product_id t ≡ (
        if seen (decrement_key event) s
        then stock_of event.product_id s
        else add64 (stock_of event.product_id s) (neg64 event.quantity))
    pub others : (q : ℕ) → q ≢ event.product_id → stock_of q t ≡ stock_of q s

  -- The stock does not suffice for an order that is new, and a message says so.
  pub record Rejected (t : InventoryStore) : Type 0 where
    pub announced : t ≡ record s {
      acknowledged =
          s.acknowledged
          ++ inventory_message codec event topic_inventory_rejected "insufficient stock" ∷ [];
    }
    pub new : seen (decrement_key event) s ≡ false
    pub short : ltb_ℤ (add64 (stock_of event.product_id s) (neg64 event.quantity)) (pos 0) ≡ true

  abbrev pub Answered : Result (Unit {0}) → InventoryStore → Type 0
  Answered (ok _) t = Reserved t ⊎ Rejected t
  Answered (err _) t = t.acknowledged ≡ s.acknowledged

  abbrev Adjusted : Result (Inventory × Bool) → InventoryStore → Type 0
  Adjusted =
      Adjustment event.product_id (neg64 event.quantity) "order stock decrement"
        (decrement_key event) s

  -- Whatever statements fail, an order on sound tables is answered truly: by the message that its
  -- stock is reserved, where its key is used and the stock has gone down by its quantity if the key
  -- was new; by the message that it is rejected, where its key is new, the stock does not suffice and
  -- no row has changed; or by no message and an error.
  pub reserve-Answered : IsStocked s → Leads (reserve codec (some event)) s Answered
  unfolding reserve answer_order produce
  reserve-Answered sound = leads_attempt {f = answer_order codec event} (
      leads_weaken
        (adjust_context-Adjustment event.product_id (neg64 event.quantity) _ (decrement_key event) s
          sound)
        told)
    where
      told :
          (r : Result (Inventory × Bool)) (t : InventoryStore)
          → Adjusted r t
          → Leads (answer_order codec event r) t Answered
      told (ok a) t h =
          let message = inventory_message codec event topic_inventory_reserved "" in
          leads_statement _ h.silent (
            inl (record {
              announced = ap (λ l. l ++ message ∷ []) h.silent;
              sound = record {
                ids = h.sound.ids;
                counter = h.sound.counter;
                fresh = h.sound.fresh;
                covered = h.sound.covered;
              };
              taken = h.recorded;
              stock = h.adjusted;
              others = h.others;
            }))
      told (err Error.insufficient_stock) t h =
          let message =
            inventory_message codec event topic_inventory_rejected "insufficient stock" in
          let (new, short) = h.1 refl in
          leads_statement _ (ap (λ (x : InventoryStore). x.acknowledged) h.0) (
            inr (record {
              announced =
                  ap
                    (λ (x : InventoryStore). record x {
                      acknowledged = x.acknowledged ++ message ∷ [];
                    })
                    h.0;
              new = new;
              short = short;
            }))
      told (err e) t h = leads_throw (ap (λ (x : InventoryStore). x.acknowledged) h.0)
