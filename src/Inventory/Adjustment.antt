-- ===== src/Inventory/Adjustment.antt =====
-- `AdjustContext` on every path: a new key, a used key, and too little stock.
use pingu_coin.Base.{
  ℕ, suc, String, [], ◌∷◌, ◌++◌, Bool, true, false, some, ◌≡◌, ◌≢◌, ◌∙◌, sym, ap, refl, ◌==◌, ==→eq,
  ==_refl, arith, find_first, find_first-holds, exists, update_where, Bool-cases, Option-cases, inl,
  inr,
}
use pingu_coin.Base.Int.{ℤ, pos, add64, ltb_ℤ}
use pingu_coin.Base.Text.{is_refl, is_sym}
use pingu_coin.Base.Rows.{
  updated, find_first-update_where, find_first-exists, find_first-missing, exists-append,
  DistinctIds, same_row, DistinctIds-update_where, All-update_where,
}
use pingu_coin.Base.Store.{
  Result, ok, err, Error, pure, ◌>>=◌, found, insufficient_stock, unavailable, record_not_found,
}
use pingu_coin.Base.Store.Laws.{
  Leads, leads_bind, leads_statement, leads_pure, leads_throw, leads_throw_bind, leads_modify,
}
use pingu_coin.Base.Store.Rules.{leads_atomic, leads_found, leads_attempt_found}
use pingu_coin.Inventory.Model.{Inventory, InventoryStore}
use pingu_coin.Inventory.Repository.{
  is_inventory, is_stock_of, has_entry_key, find_by_product, find_entry, set_quantity, insert_entry,
  open_stock, write_stock, change_stock, adjust_for, adjust_context,
}
use pingu_coin.Inventory.Stock.{
  quantity_in, stock_of, seen, IsStocked, Adjusts, Opened, Short, OrShort, lost, open-Opened,
}

module _ (product : ℕ) (amount : ℤ) (reason key : String) (s : InventoryStore) where
  -- The tables behind the two writes.
  abbrev written : Inventory → ℤ → InventoryStore → InventoryStore
  written i next t = record t {
    inventories =
        update_where (is_inventory i.id)
          (λ x. record x { quantity = next; version = suc x.version }) t.inventories;
    entries =
        t.entries
        ++ record {
          id = t.next_entry;
          product_id = product;
          amount = amount;
          reason = reason;
          idempotency_key = key;
          quantity_after = next;
        }
          ∷ [];
    next_entry = suc t.next_entry;
  }

  lookup-written :
      (q : ℕ) (i : Inventory) (next : ℤ) (t : InventoryStore)
      → find_first (is_stock_of q) (written i next t).inventories
        ≡ updated
            (is_inventory i.id)
            (λ x. record x { quantity = next; version = suc x.version })
            (find_first (is_stock_of q) t.inventories)
  lookup-written q i next t =
      find_first-update_where (is_stock_of q) (is_inventory i.id)
        (λ x. record x { quantity = next; version = suc x.version }) (λ a. refl) t.inventories

  same_product :
      (q : ℕ) (i j : Inventory) (t : InventoryStore)
      → DistinctIds (λ (x : Inventory). x.id) t.inventories
      → find_first (is_stock_of product) t.inventories ≡ some i
      → find_first (is_stock_of q) t.inventories ≡ some j
      → j.id ≡ i.id
      → q ≡ product
  same_product q i j t ids here there e =
      let rows = same_row (λ (x : Inventory). x.id) _ _ t.inventories i j ids here there (sym e) in
      let own = ==→eq i.product_id product (find_first-holds _ t.inventories i here) in
      let other = ==→eq j.product_id q (find_first-holds _ t.inventories j there) in
      sym other ∙ sym (ap (λ (x : Inventory). x.product_id) rows) ∙ own

  other-written :
      (q : ℕ) (i : Inventory) (next : ℤ) (t : InventoryStore)
      → Opened product s i t
      → q ≢ product
      → stock_of q (written i next t) ≡ stock_of q s
  other-written q i next t o other =
      ap quantity_in (lookup-written q i next t)
      ∙ elim (Option-cases (find_first (is_stock_of q) t.inventories)) [
        | inl missing ↦ rw missing (ap quantity_in (sym missing ∙ o.others q other))
        | inr (j, there) ↦ elim (Bool-cases (j.id == i.id)) [
          | inl same ↦
              absurd (other (same_product q i j t o.sound.ids o.here there (==→eq j.id i.id same)))
          | inr apart ↦ rw (there, apart) (ap quantity_in (sym there ∙ o.others q other))
        ]
      ]

  written-Adjusts :
      (i : Inventory) (t : InventoryStore)
      → Opened product s i t
      → seen key s ≡ false
      → ltb_ℤ (add64 i.quantity amount) (pos 0) ≡ false
      → let next = add64 i.quantity amount in
        Adjusts product amount key s
          (record i { quantity = next; version = suc i.version }, false)
          (written i next t)
  written-Adjusts i t o fresh enough =
      let next = add64 i.quantity amount in
      let entries = ap (λ (x : InventoryStore). x.entries) o.rest in
      let looked_up : stock_of product (written i next t) ≡ next =
        ap quantity_in (lookup-written product i next t) ∙ rw (o.here, ==_refl i.id) refl in
      record {
        replayed = sym fresh;
        recorded = exists-append (has_entry_key key) t.entries _ ∙ rw (is_refl key) (ground arith);
        other_keys = λ k apart.
            exists-append (has_entry_key k) t.entries _
            ∙ rw (entries, is_sym key k, apart) (ground arith);
        adjusted = looked_up ∙ rw fresh (ap (λ z. add64 z amount) o.starts);
        answered = sym looked_up;
        others = λ q other. other-written q i next t o other;
        sound = record {
          ids =
              DistinctIds-update_where (λ (x : Inventory). x.id) (is_inventory i.id) _ (λ a. refl)
                t.inventories o.sound.ids;
          counter = o.sound.counter;
          fresh = All-update_where _ (is_inventory i.id) _ (λ a h. h) t.inventories o.sound.fresh;
          covered =
              All-update_where _ (is_inventory i.id) _ (λ a h. enough) t.inventories
                o.sound.covered;
        };
        silent = ap (λ (x : InventoryStore). x.acknowledged) o.rest;
      }

  change-Adjusts :
      (i : Inventory) (t : InventoryStore)
      → Opened product s i t
      → seen key s ≡ false
      → Leads
          (change_stock product amount reason key i)
          t
          (OrShort product amount reason key s (Adjusts product amount key s))
  unfolding change_stock write_stock set_quantity insert_entry
  change-Adjusts i t o fresh = elim (Bool-cases (ltb_ℤ (add64 i.quantity amount) (pos 0))) [
    | inl short ↦
        rw short (leads_throw (λ _. (fresh, rw (ap (λ z. add64 z amount) o.starts) at short)))
    | inr enough ↦ rw enough (
        leads_modify _ _
          (leads_bind
            {P = OrShort product amount reason key s (λ _ u.
              Adjusts product amount key s
                (record i { quantity = add64 i.quantity amount; version = suc i.version }, false)
                u)}
            (leads_statement _ (lost product amount reason key s) (
              rw (ap (λ (x : InventoryStore). exists (has_entry_key key) x.entries) o.rest ∙ fresh)
                (written-Adjusts i t o fresh enough)))
            (λ _ u a. leads_pure a) (λ e u h. h))
          (lost product amount reason key s))
  ]

  absent_row : Short product amount reason key s record_not_found
  absent_row e = absurd (differ e)
    where
      differ : ¬ (◌≡◌ {A = Error} record_not_found insufficient_stock)
      differ e = cc

  replay-Adjusts :
      IsStocked s
      → seen key s ≡ true
      → Leads
          (find_by_product product >>= λ row. pure (row, true))
          s
          (OrShort product amount reason key s (Adjusts product amount key s))
  unfolding find_by_product
  replay-Adjusts sound used =
      leads_found (λ x. find_first (is_stock_of product) x.inventories) _ answered (λ _. absent_row)
        (lost product amount reason key s)
    where
      answered :
          (row : Inventory)
          → find_first (is_stock_of product) s.inventories ≡ some row
          → Leads
              (pure (row, true))
              s
              (OrShort product amount reason key s (Adjusts product amount key s))
      answered row e = leads_pure (record {
        replayed = sym used;
        recorded = used;
        other_keys = λ k apart. refl;
        adjusted = rw used refl;
        answered = ap quantity_in (sym e);
        others = λ q other. refl;
        sound = sound;
        silent = refl;
      })

  adjust_for-Adjusts :
      IsStocked s
      → Leads
          (adjust_for product amount reason key (found (find_first (has_entry_key key) s.entries)))
          s
          (OrShort product amount reason key s (Adjusts product amount key s))
  unfolding adjust_for find_by_product
  adjust_for-Adjusts sound = elim (Option-cases (find_first (has_entry_key key) s.entries)) [
    | inl unused ↦
        let fresh = find_first-missing (has_entry_key key) s.entries unused in
        let continue = change_stock product amount reason key in
        rw unused (
          leads_attempt_found (λ x. find_first (is_stock_of product) x.inventories)
            (λ r. open_stock product r >>= continue)
            (leads_bind (open-Opened product amount reason key s sound)
              (λ i t o. change-Adjusts i t o fresh) (λ e t h. h))
            (leads_throw_bind unavailable continue (lost product amount reason key s)))
    | inr (event, used) ↦
        rw used (replay-Adjusts sound (find_first-exists (has_entry_key key) s.entries event used))
  ]

  -- What `AdjustContext` ends in.
  abbrev pub Adjustment : Result (Inventory × Bool) → InventoryStore → Type 0
  Adjustment (ok a) t = Adjusts product amount key s a t
  Adjustment (err e) t = (t ≡ s) × Short product amount reason key s e

  -- Whatever statements fail, `AdjustContext` on sound tables either changes nothing, and reports a
  -- want of stock only for a new key and an amount that the stock does not cover, or leaves sound
  -- tables in which the key is used: the stock of the product has changed by the amount (in 64
  -- bits) if the key was new, and not at all if it was used, and no other product's stock and no
  -- other key has changed; the answer holds the new stock, and whether the key was used.
  pub adjust_context-Adjustment :
      IsStocked s → Leads (adjust_context product amount reason key) s Adjustment
  unfolding adjust_context find_entry adjust_for
  adjust_context-Adjustment sound =
      leads_atomic
        (leads_attempt_found (λ x. find_first (has_entry_key key) x.entries)
          (adjust_for product amount reason key) (adjust_for-Adjusts sound)
          (leads_throw (lost product amount reason key s)))
        (λ t. (lost product amount reason key s)) (λ a t h. h) (λ e t h. (refl, h))
