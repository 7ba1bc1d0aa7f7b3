-- ===== src/Order/Creation.antt =====
-- What `CreateOrGet` and the checks of `CreateOrder` promise.
use pingu_coin.Base.{
  ℕ, suc, String, List, [], ◌∷◌, ◌++◌, Bool, true, false, Option, none, some, ◌≡◌, ◌∙◌, refl,
  if◌then◌else◌, arith, find_first, exists, Bool-cases, Option-cases, inl, inr,
  find_first-append_none,
}
use pingu_coin.Base.Int.{eqb_ℤ_refl}
use pingu_coin.Base.Text.{is_refl}
use pingu_coin.Base.Store.{
  Result, ok, err, Error, World, ◌>>=◌, statement, transaction, calm, idempotency_conflict,
  duplicated_key,
}
use pingu_coin.Base.Store.Laws.{
  Leads, leads_statement, leads_throw, leads_pure, leads_bind, leads_transaction, leads_attempt,
  WhenOk,
}
use pingu_coin.Flow.{Codec}
use pingu_coin.Order.Model.{Order, OrderStore}
use pingu_coin.Order.Repository.{
  has_key, insert_order, insert_event, announce, same_request, create, get_existing, create_or_get,
}

-- A lookup finds a row exactly where the unique index has the key.
exists-find_first :
    {A : Type 0} (p : A → Bool) (xs : List A)
    → exists p xs ≡ elim (find_first p xs) [ none ↦ false | some _ ↦ true ]
exists-find_first p [] = refl
exists-find_first p (x ∷ xs) = ground (arith, exists-find_first p xs)

module _ (codec : Codec) (topic : String) where
  -- The tables with one more order, and the event that announces it.
  abbrev pub added : Order → OrderStore → OrderStore
  added c s =
      let row = record c { id = s.next_order } in
      let t : OrderStore = record s {
        orders = s.orders ++ row ∷ [];
        next_order = suc s.next_order;
      } in
      insert_event row.id topic row.idempotency_key (codec.encode_order (announce row)) t

  -- What `CreateOrGet` comes to when no statement fails, by what its key is found to have.
  abbrev pub placed : Order → OrderStore → Option Order → Result (Order × Bool) × World OrderStore
  placed c s none = (ok (record c { id = s.next_order }, false), calm (added c s))
  placed c s (some o) =
      if same_request o c then (ok (o, true), calm s) else (err idempotency_conflict, calm s)

  unique :
      (c : Order) (s : OrderStore) {b : Bool}
      → exists (has_key c.idempotency_key) s.orders ≡ b
      → create codec c topic (calm s) ≡ (
          if b
          then (err duplicated_key, calm s)
          else (ok (record c { id = s.next_order }), calm (added c s)))
  unfolding create transaction statement ◌>>=◌ insert_order
  unique c s {b = true} h = rw h refl
  unique c s {b = false} h = rw h refl

  -- With a working database `CreateOrGet` stores a new order together with its event, returns the
  -- stored order for a repeated request, and refuses a key that belongs to another request; only in
  -- the first case does a row change.
  pub create_or_get-placed :
      (c : Order) (s : OrderStore)
      → create_or_get codec c topic (calm s)
        ≡ placed c s (find_first (has_key c.idempotency_key) s.orders)
  unfolding create_or_get get_existing statement ◌>>=◌
  create_or_get-placed c s =
      let key = has_key c.idempotency_key in
      elim (Option-cases (find_first key s.orders)) [
        | inl absent ↦
            rw absent
              (rw (unique c s {b = false} (exists-find_first key s.orders ∙ rw absent refl)) refl)
        | inr (o, present) ↦
            rw (unique c s {b = true} (exists-find_first key s.orders ∙ rw present refl)) (
              rw present
                (elim (Bool-cases (same_request o c)) [ inl e ↦ rw e refl | inr e ↦ rw e refl ]))
      ]

  -- How `CreateOrGet` can have ended.
  abbrev pub Ends : Order → OrderStore → Result (Order × Bool) → OrderStore → Type 0
  Ends c s (ok (o, false)) t =
      (exists (has_key c.idempotency_key) s.orders ≡ false)
      × (o ≡ record c { id = s.next_order })
      × (t ≡ added c s)
  Ends c s (ok (o, true)) t = (t ≡ s) × (same_request o c ≡ true)
  Ends c s (err _) t = t ≡ s

  -- The row and the table behind the first statement.
  abbrev Inserted : Order → OrderStore → Result Order → OrderStore → Type 0
  Inserted c s = WhenOk (λ o t.
      (exists (has_key c.idempotency_key) s.orders ≡ false)
      × (o ≡ record c { id = s.next_order })
      × (t ≡ record s {
        orders = s.orders ++ record c { id = s.next_order } ∷ [];
        next_order = suc s.next_order;
      }))

  insert_order-Ends :
      (c : Order) (s : OrderStore) → let (r, t) = insert_order c s in Inserted c s r t
  unfolding insert_order
  insert_order-Ends c s = elim (Bool-cases (exists (has_key c.idempotency_key) s.orders)) [
    | inl taken ↦ rw taken tt
    | inr free ↦ rw free (refl, refl, refl)
  ]

  get_existing-Ends :
      (c : Order) (s : OrderStore) (e : Error) → Leads (get_existing c (err e)) s (Ends c s)
  unfolding get_existing
  get_existing-Ends c s Error.duplicated_key =
      leads_bind {P = λ _ t. t ≡ s} (leads_statement _ refl refl)
        (λ o t same. elim (Bool-cases (same_request o c)) [
          | inl e ↦ rw e (leads_pure (same, e))
          | inr e ↦ rw e (leads_throw same)
        ])
        (λ _ _ same. same)
  get_existing-Ends c s _ = leads_throw refl

  create-Ends :
      (c : Order) (s : OrderStore)
      → Leads (create codec c topic) s (λ r t. Leads (get_existing c r) t (Ends c s))
  unfolding create get_existing
  create-Ends c s =
      leads_transaction
        (leads_bind {P = Inserted c s} (leads_statement _ tt (insert_order-Ends c s))
          (λ o t h.
            leads_bind {P = WhenOk (λ _ u. Ends c s (ok (o, false)) u)}
              (leads_statement _ tt (h.0, h.1, rw (h.2, h.1) refl))
              (λ _ u k. leads_pure (leads_pure k)) (λ _ _ _. tt))
          (λ _ _ _. tt))
        (get_existing-Ends c s)

  -- Whatever statements fail, `CreateOrGet` has stored the order together with its event, or has
  -- changed no row; and an order that it hands back as replayed is one that was asked for.
  pub create_or_get-Ends :
      (c : Order) (s : OrderStore) → Leads (create_or_get codec c topic) s (Ends c s)
  unfolding create_or_get
  create_or_get-Ends c s = leads_attempt (create-Ends c s)

  same_request_refl : (c : Order) (n : ℕ) → same_request (record c { id = n }) c ≡ true
  unfolding same_request
  same_request_refl c n =
      ground (arith, eqb_ℤ_refl c.quantity, is_refl c.payment_method, is_refl c.currency)

  -- A request that is sent again while nothing fails gets the order that the first one stored, as
  -- replayed, and changes no row.
  pub create_or_get-again :
      (c : Order) (s : OrderStore)
      → find_first (has_key c.idempotency_key) s.orders ≡ none
      → (create_or_get codec c topic >>= λ _. create_or_get codec c topic) (calm s)
        ≡ (ok (record c { id = s.next_order }, true), calm (added c s))
  unfolding ◌>>=◌ insert_event
  create_or_get-again c s absent = rw (create_or_get-placed c s) (
      rw absent (
        rw (create_or_get-placed c (added c s)) (
          rw (find_first-append_none (has_key c.idempotency_key) s.orders _ absent)
            (rw (is_refl c.idempotency_key) (rw (same_request_refl c s.next_order) refl)))))
