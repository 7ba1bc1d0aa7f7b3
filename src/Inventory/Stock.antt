-- ===== src/Inventory/Stock.antt =====
-- What `AdjustContext` does to the stock of products, whatever statements fail.
use pingu_coin.Base.{
  ℕ, suc, ◌<◌, String, List, [], ◌∷◌, ◌++◌, Bool, true, false, Option, none, some, ◌≡◌, ◌≢◌, ◌∙◌,
  refl, ◌==◌, ==→eq, ==_refl, if◌then◌else◌, arith, All, All-weaken, All-snoc, find_first,
  find_first-append_none, exists, Option-cases, inl, inr,
}
use pingu_coin.Base.Int.{ℤ, pos, add64, ltb_ℤ}
use pingu_coin.Base.Text.{◌is◌}
use pingu_coin.Base.Rows.{find_first-missing, DistinctIds, DistinctIds-append}
use pingu_coin.Base.Store.{Result, ok, err, Error, found, insufficient_stock, unavailable}
use pingu_coin.Base.Store.Laws.{Leads, leads_bind, leads_statement, leads_pure}
use pingu_coin.Inventory.Model.{default_digital_stock, Inventory, InventoryStore}
use pingu_coin.Inventory.Repository.{
  is_inventory, is_stock_of, has_entry_key, insert_default, relock, open_stock,
}

abbrev pub quantity_in : Option Inventory → ℤ
quantity_in none = default_digital_stock
quantity_in (some i) = i.quantity

-- The stock of a product; one that has no row has the default.
abbrev pub stock_of : ℕ → InventoryStore → ℤ
stock_of product s = quantity_in (find_first (is_stock_of product) s.inventories)

-- Whether a key has been used.
abbrev pub seen : String → InventoryStore → Bool
seen key s = exists (has_entry_key key) s.entries

-- Ids are distinct and given out by the sequence, and no stock is negative.
pub record IsStocked (s : InventoryStore) : Type 0 where
  pub ids : DistinctIds (λ (i : Inventory). i.id) s.inventories
  pub counter : 0 < s.next_inventory
  pub fresh : All (λ (i : Inventory). (0 < i.id) × (i.id < s.next_inventory)) s.inventories
  pub covered : All (λ (i : Inventory). ltb_ℤ i.quantity (pos 0) ≡ false) s.inventories

-- What an adjustment that goes through ends in.
pub record Adjusts (product : ℕ) (amount : ℤ) (key : String) (s : InventoryStore)
    (a : Inventory × Bool) (t : InventoryStore) : Type 0 where
  pub replayed : a.1 ≡ seen key s
  pub recorded : seen key t ≡ true
  pub other_keys : (k : String) → (k is key) ≡ false → seen k t ≡ seen k s
  pub adjusted :
      stock_of product t
      ≡ (if seen key s then stock_of product s else add64 (stock_of product s) amount)
  pub answered : a.0.quantity ≡ stock_of product t
  pub others : (q : ℕ) → q ≢ product → stock_of q t ≡ stock_of q s
  pub sound : IsStocked t
  pub silent : t.acknowledged ≡ s.acknowledged

module _ (product : ℕ) where
  -- The row that an adjustment of a new key starts from.
  pub record Opened (s : InventoryStore) (i : Inventory) (t : InventoryStore) : Type 0 where
    pub rest : t ≡ record s { inventories = t.inventories; next_inventory = t.next_inventory }
    pub here : find_first (is_stock_of product) t.inventories ≡ some i
    pub starts : i.quantity ≡ stock_of product s
    pub others :
        (q : ℕ)
        → q ≢ product
        → find_first (is_stock_of q) t.inventories ≡ find_first (is_stock_of q) s.inventories
    pub sound : IsStocked t

  -- A row with the sequence's next id.
  absent :
      (n : ℕ) (xs : List Inventory)
      → All (λ (i : Inventory). (0 < i.id) × (i.id < n)) xs
      → exists (is_inventory n) xs ≡ false
  absent n [] h = refl
  absent n (x ∷ xs) h = ground (arith, absent n xs)

  snoc-other :
      (q : ℕ) (x : Inventory) (xs : List Inventory)
      → q ≢ product
      → x.product_id ≡ product
      → find_first (is_stock_of q) (xs ++ x ∷ []) ≡ find_first (is_stock_of q) xs
  snoc-other q x [] other own = ground (arith, ==→eq product q)
  snoc-other q x (y ∷ xs) other own = ground (arith, snoc-other q x xs)

  default_row : ℕ → Inventory
  default_row n = record {
    id = n;
    product_id = product;
    quantity = default_digital_stock;
    reserved = pos 0;
    version = 1;
  }

  default-Opened :
      (s : InventoryStore)
      → IsStocked s
      → find_first (is_stock_of product) s.inventories ≡ none
      → Opened s (default_row s.next_inventory) (record s {
        inventories = s.inventories ++ default_row s.next_inventory ∷ [];
        next_inventory = suc s.next_inventory;
      })
  unfolding default_row
  default-Opened s sound missing = record {
    rest = refl;
    here =
        find_first-append_none (is_stock_of product) s.inventories
          (default_row s.next_inventory ∷ []) missing
        ∙ rw (==_refl product) refl;
    starts = rw missing refl;
    others = λ q other. snoc-other q (default_row s.next_inventory) s.inventories other refl;
    sound = record {
      ids =
          DistinctIds-append (λ (i : Inventory). i.id) s.inventories (default_row s.next_inventory)
            sound.ids (absent s.next_inventory s.inventories sound.fresh);
      counter = omega arith;
      fresh =
          All-snoc _ s.inventories (default_row s.next_inventory)
            (All-weaken _ _ s.inventories (λ x h. (h.0, omega (arith, h.1))) sound.fresh)
            (sound.counter, omega arith);
      covered =
          All-snoc _ s.inventories (default_row s.next_inventory) sound.covered (ground arith);
    };
  }

  inserted-Opened :
      (s : InventoryStore)
      → IsStocked s
      → find_first (is_stock_of product) s.inventories ≡ none
      → insert_default product s ≡ (
        ok (default_row s.next_inventory),
        record s {
          inventories = s.inventories ++ default_row s.next_inventory ∷ [];
          next_inventory = suc s.next_inventory;
        },
      )
  unfolding insert_default default_row
  inserted-Opened s sound missing =
      rw (find_first-missing (is_stock_of product) s.inventories missing) refl

  module _ (amount : ℤ) (reason key : String) (s : InventoryStore) where
    -- An error for want of stock tells the truth: the key is new, and the stock does not suffice.
    abbrev pub Short : Error → Type 0
    Short e =
        e ≡ insufficient_stock
        → (seen key s ≡ false) × (ltb_ℤ (add64 (stock_of product s) amount) (pos 0) ≡ true)

    abbrev pub OrShort :
        {A : Type 0} → (A → InventoryStore → Type 0) → Result A → InventoryStore → Type 0
    OrShort G (ok a) t = G a t
    OrShort G (err e) t = Short e

    pub lost : Short unavailable
    lost e = absurd (differ e)
      where
        differ : ¬ (◌≡◌ {A = Error} unavailable insufficient_stock)
        differ e = cc

    pub open-Opened :
        IsStocked s
        → Leads
            (open_stock product (found (find_first (is_stock_of product) s.inventories)))
            s
            (OrShort (Opened s))
    unfolding open_stock relock default_row
    open-Opened sound = elim (Option-cases (find_first (is_stock_of product) s.inventories)) [
      | inl missing ↦ rw missing (
          leads_bind {P = OrShort (λ i t. (0 < i.id) × Opened s i t)}
            (leads_statement _ lost (
              rw (inserted-Opened s sound missing) (sound.counter, default-Opened s sound missing)))
            (λ i t o. rw (positive i.id o.0) (leads_pure o.1)) (λ e t h. h))
      | inr (i, e) ↦ rw e (
          leads_pure (record {
            rest = refl;
            here = e;
            starts = rw e refl;
            others = λ q other. refl;
            sound = sound;
          }))
    ]
      where
        positive : (n : ℕ) → 0 < n → (n == 0) ≡ false
        positive n h = ground arith
