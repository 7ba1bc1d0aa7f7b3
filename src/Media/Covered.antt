-- ===== src/Media/Covered.antt =====
-- No operation makes the stock of a product negative.
use pingu_coin.Base.{
  ℕ, String, true, false, not, Option, none, some, ◌≡◌, refl, All, All-snoc, All-select, exists,
  Bool-cases, inl, inr, arith,
}
use pingu_coin.Base.Int.{ℤ, pos, add64, ltb_ℤ}
use pingu_coin.Base.Rows.{All-update_where}
use pingu_coin.Base.Text.{trim_space}
use pingu_coin.Base.Store.{
  Result, ok, err, is_missing, is_duplicated, is_short_stock, insufficient_stock, pure, throw,
}
use pingu_coin.Base.Rpc.{refuse, failed_precondition, internal}
use pingu_coin.Base.Store.Keeps.{
  Keeps, Keeps-pure, Keeps-throw, Keeps-if, Keeps-query, Keeps-statement, Keeps-modify, Keeps-bind,
  Keeps-attempt, Keeps-transaction,
}
use pingu_coin.Media.Model.{ProductInventory, ProductInventoryTransaction, MediaStore}
use pingu_coin.Media.Repository.{
  is_row, is_row_of, find_row, find_row_of, insert_row, save_row, next_version, takes_row,
  delete_row, find_transaction, update_quantity, insert_transaction, new_transaction, Adjusted,
  find_raced, recorded, move_stock, move_checked, adjust_new, adjust_known, adjust_stock,
  adjust_stock_atomic,
}
use pingu_coin.Media.Server.{
  or_refused, row_fault, new_row, create_checked, create_inventory, write_row, update_checked,
  update_inventory, remove_inventory, read_adjusted, adjusted_reply, adjust_checked,
  adjust_inventory, adjust_fault,
}

abbrev pub HasStock : ProductInventory → Type 0
HasStock i = ltb_ℤ i.quantity (pos 0) ≡ false

-- No stock is negative.
abbrev pub IsCovered : MediaStore → Type 0
IsCovered s = All HasStock s.inventories

insert_row-IsCovered :
    (i : ProductInventory)
    → HasStock i
    → (s : MediaStore) → IsCovered s
    → IsCovered (insert_row i s).1
unfolding insert_row
insert_row-IsCovered i h s k = elim (Bool-cases (exists (is_row_of i.product_id) s.inventories)) [
  | inl taken ↦ rw taken k
  | inr new ↦ rw new (All-snoc HasStock s.inventories _ k h)
]

save_row-IsCovered :
    (i : ProductInventory)
    → HasStock i
    → (s : MediaStore) → IsCovered s
    → IsCovered (save_row i s).1
unfolding save_row
save_row-IsCovered i h s k = elim (Bool-cases (exists (takes_row i) s.inventories)) [
  | inl taken ↦ rw taken k
  | inr new ↦ elim (Bool-cases (exists (is_row i.id) s.inventories)) [
    | inl there ↦
        rw (new, there)
          (All-update_where HasStock (is_row i.id) (λ _. next_version i) (λ _ _. h) s.inventories k)
    | inr missing ↦ rw (new, missing) (All-snoc HasStock s.inventories _ k h)
  ]
]

insert_transaction-IsCovered :
    (t : ProductInventoryTransaction) (s : MediaStore)
    → IsCovered s
    → IsCovered (insert_transaction t s).1
unfolding insert_transaction
insert_transaction-IsCovered t s k = ground (arith, k)

module _ (product : ℕ) (amount : ℤ) (reason key : String) where
  recorded-Keeps : (r : Result ProductInventoryTransaction) → Keeps IsCovered (recorded key r)
  unfolding recorded find_raced find_transaction
  recorded-Keeps (ok t) = Keeps-pure _
  recorded-Keeps (err e) =
      Keeps-if (is_duplicated e) (find_raced key) (throw e)
        (Keeps-bind _ _ (Keeps-query _) (λ t. Keeps-pure (t, true))) (Keeps-throw e)

  move-Keeps :
      (i : ProductInventory) (next : ℤ)
      → ltb_ℤ next (pos 0) ≡ false
      → Keeps IsCovered (move_stock product amount reason key i next)
  unfolding move_stock update_quantity
  move-Keeps i next h =
      Keeps-bind _ _
        (Keeps-modify _
          (λ s k. All-update_where HasStock (is_row i.id) _ (λ _ _. h) s.inventories k))
        (λ _.
          Keeps-attempt _ (recorded key)
            (Keeps-statement _
              (insert_transaction-IsCovered (new_transaction product amount reason key next)))
            recorded-Keeps)

  checked-Keeps :
      (i : ProductInventory) → Keeps IsCovered (move_checked product amount reason key i)
  unfolding move_checked
  checked-Keeps i = elim (Bool-cases (ltb_ℤ (add64 i.quantity amount) (pos 0))) [
    | inl short ↦ rw short (Keeps-throw insufficient_stock)
    | inr enough ↦ rw enough (move-Keeps i (add64 i.quantity amount) enough)
  ]

  known-Keeps :
      (r : Result ProductInventoryTransaction)
      → Keeps IsCovered (adjust_known product amount reason key r)
  unfolding adjust_known adjust_new find_row_of
  known-Keeps (ok t) = Keeps-pure _
  known-Keeps (err e) =
      Keeps-if (is_missing e) (adjust_new product amount reason key) (throw e)
        (Keeps-bind _ _ (Keeps-query _) checked-Keeps) (Keeps-throw e)

  adjust-Keeps : Keeps IsCovered (adjust_stock_atomic product amount reason key)
  unfolding adjust_stock_atomic adjust_stock find_transaction
  adjust-Keeps =
      Keeps-transaction _
        (Keeps-attempt _ (adjust_known product amount reason key) (Keeps-query _) known-Keeps)

  reply-Keeps : (r : Result Adjusted) → Keeps IsCovered (adjusted_reply product r)
  unfolding adjusted_reply read_adjusted find_row_of
  reply-Keeps (ok _) =
      Keeps-attempt _ (λ r. pure (or_refused r)) (Keeps-query _) (λ r. Keeps-pure _)
  reply-Keeps (err e) =
      Keeps-if (is_short_stock e) (pure (refuse failed_precondition "insufficient stock"))
        (pure (refuse internal "internal server error")) (Keeps-pure _) (Keeps-pure _)

  adjust_checked-Keeps :
      (fault : Option String) → Keeps IsCovered (adjust_checked product amount reason key fault)
  unfolding adjust_checked
  adjust_checked-Keeps (some fault) = Keeps-pure _
  adjust_checked-Keeps none = Keeps-attempt _ (adjusted_reply product) adjust-Keeps reply-Keeps

-- A row that passes the checks has stock.
row_fault-HasStock :
    (product : ℕ) (quantity reserved : ℤ)
    → row_fault product quantity reserved ≡ none
    → ltb_ℤ quantity (pos 0) ≡ false
unfolding row_fault
row_fault-HasStock product quantity reserved h = ground arith

module _ (id product : ℕ) (quantity reserved : ℤ) where
  create_checked-Keeps :
      (fault : Option String)
      → row_fault product quantity reserved ≡ fault
      → Keeps IsCovered (create_checked product quantity reserved fault)
  unfolding create_checked
  create_checked-Keeps (some fault) e = Keeps-pure _
  create_checked-Keeps none e =
      Keeps-attempt _ (λ r. pure (or_refused r))
        (Keeps-statement _ (
          insert_row-IsCovered (new_row product quantity reserved)
            (row_fault-HasStock product quantity reserved e)))
        (λ r. Keeps-pure _)

  write-Keeps :
      ltb_ℤ quantity (pos 0) ≡ false
      → (r : Result ProductInventory) → Keeps IsCovered (write_row product quantity reserved r)
  unfolding write_row
  write-Keeps h (err e) = Keeps-pure _
  write-Keeps h (ok i) =
      Keeps-attempt _ (λ r. pure (or_refused r))
        (Keeps-statement _ (
          save_row-IsCovered
            (record i { product_id = product; quantity = quantity; reserved = reserved }) h))
        (λ r. Keeps-pure _)

  update_checked-Keeps :
      (fault : Option String)
      → row_fault product quantity reserved ≡ fault
      → Keeps IsCovered (update_checked id product quantity reserved fault)
  unfolding update_checked find_row
  update_checked-Keeps (some fault) e = Keeps-pure _
  update_checked-Keeps none e =
      Keeps-attempt _ (write_row product quantity reserved) (Keeps-query _)
        (write-Keeps (row_fault-HasStock product quantity reserved e))

  remove-Keeps : Keeps IsCovered (remove_inventory id)
  unfolding remove_inventory delete_row
  remove-Keeps =
      Keeps-attempt _ (λ r. pure (or_refused r))
        (Keeps-modify _ (λ s k. All-select HasStock (λ i. not (is_row id i)) s.inventories k))
        (λ r. Keeps-pure _)

  -- Where no stock is negative, none is behind the handlers that create, update, delete and adjust
  -- the stock of a product, whatever they are asked, whatever statements fail and whatever they
  -- answer.
  pub IsCovered-kept :
      (amount : ℤ) (reason key : String)
      → Keeps IsCovered (create_inventory product quantity reserved)
        × Keeps IsCovered (update_inventory id product quantity reserved)
        × Keeps IsCovered (remove_inventory id)
        × Keeps IsCovered (adjust_inventory product amount reason key)
  unfolding create_inventory update_inventory adjust_inventory
  IsCovered-kept amount reason key = (
    create_checked-Keeps (row_fault product quantity reserved) refl,
    update_checked-Keeps (row_fault product quantity reserved) refl,
    remove-Keeps,
    adjust_checked-Keeps product amount reason (trim_space key)
        (adjust_fault product amount (trim_space key)),
  )
