-- ===== src/Base/Lists.antt =====
-- Lists of rows: a query filters, finds, maps or sorts them.
use Prim.Native.Nat.{ℕ, zero, suc, ◌+◌, ◌≤◌}
use mathlib.Core.Path.{◌≡◌, refl, sym, ◌∙◌, subst}
use mathlib.Core.Logic.{inl, inr}
use mathlib.Core.Bool.{Bool, true, false}
use mathlib.Core.Option.{Option, none, some, some-injective}
use mathlib.Core.List.{List, [], ◌∷◌, ◌++◌, append-nil, append_assoc}
use native.Mathlib.Nat.{le_of_eq}
use native.Mathlib.Omega.{arith}
use pingu_coin.Base.Tests.{leb, if◌then◌else◌, Bool-cases}

-- A predicate that holds of every element, by recursion.
abbrev pub All {ℓ κ} : {A : Type ℓ} → (A → Type κ) → List A → Type κ
All P [] = Unit
All P (x ∷ xs) = P x × All P xs

module _ {ℓ} {A : Type ℓ} where
  abbrev pub length : List A → ℕ
  length [] = 0
  length (_ ∷ xs) = suc (length xs)

  -- `WHERE`
  abbrev pub select : (A → Bool) → List A → List A
  select p [] = []
  select p (x ∷ xs) = if p x then x ∷ select p xs else select p xs

  -- The first row of a `WHERE`, in the order of the table.
  abbrev pub find_first : (A → Bool) → List A → Option A
  find_first p [] = none
  find_first p (x ∷ xs) = if p x then some x else find_first p xs

  abbrev pub exists : (A → Bool) → List A → Bool
  exists p [] = false
  exists p (x ∷ xs) = if p x then true else exists p xs

  -- `UPDATE … WHERE`
  abbrev pub update_where : (A → Bool) → (A → A) → List A → List A
  update_where p f [] = []
  update_where p f (x ∷ xs) = (if p x then f x else x) ∷ update_where p f xs

  abbrev pub take : ℕ → List A → List A
  take zero xs = []
  take (suc n) [] = []
  take (suc n) (x ∷ xs) = x ∷ take n xs

  abbrev pub last? : List A → Option A
  last? [] = none
  last? (x ∷ []) = some x
  last? (_ ∷ y ∷ xs) = last? (y ∷ xs)

  pub length-append : (xs ys : List A) → length (xs ++ ys) ≡ length xs + length ys
  length-append [] ys = omega arith
  length-append (x ∷ xs) ys = omega (arith, length-append xs ys)

  pub select-append :
      (p : A → Bool) (xs ys : List A) → select p (xs ++ ys) ≡ select p xs ++ select p ys
  select-append p [] ys = refl
  select-append p (x ∷ xs) ys = ground (arith, select-append p xs ys)

  pub find_first-append_none :
      (p : A → Bool) (xs ys : List A)
      → find_first p xs ≡ none
      → find_first p (xs ++ ys) ≡ find_first p ys
  find_first-append_none p [] ys h = refl
  find_first-append_none p (x ∷ xs) ys h = ground (arith, find_first-append_none p xs ys)

  pub find_first-append_some :
      (p : A → Bool) (xs ys : List A) (a : A)
      → find_first p xs ≡ some a
      → find_first p (xs ++ ys) ≡ some a
  find_first-append_some p [] ys a h = cc
  find_first-append_some p (x ∷ xs) ys a h = ground (arith, find_first-append_some p xs ys a)

  -- A row that was found passes the test of the query.
  pub find_first-holds :
      (p : A → Bool) (xs : List A) (a : A) → find_first p xs ≡ some a → p a ≡ true
  find_first-holds p [] a h = cc
  find_first-holds p (x ∷ xs) a h = ground (arith, find_first-holds p xs a)

module _ {ℓ κ} {A : Type ℓ} where
  pub last?-All : (P : A → Type κ) (xs : List A) (a : A) → All P xs → last? xs ≡ some a → P a
  last?-All P [] a h e = cc
  last?-All P (x ∷ []) a h e = subst P (some-injective x a e) h.0
  last?-All P (x ∷ y ∷ xs) a h e = last?-All P (y ∷ xs) a h.1 e

  -- A row that a query finds is one of those that it selects.
  pub find_first-All :
      (P : A → Type κ) (p : A → Bool) (xs : List A) (a : A)
      → All P (select p xs)
      → find_first p xs ≡ some a
      → P a
  find_first-All P p [] a h e = cc
  find_first-All P p (x ∷ xs) a h e = elim (Bool-cases (p x)) [
    | inl t ↦ (let k = rw t at h in subst P (some-injective x a (rw t at e)) k.0)
    | inr t ↦ find_first-All P p xs a (rw t at h) (rw t at e)
  ]

  -- What a test says of the rows that pass it.
  pub select-All :
      (P : A → Type κ) (p : A → Bool) (xs : List A)
      → ((x : A) → p x ≡ true → P x)
      → All P (select p xs)
  select-All P p [] f = tt
  select-All P p (x ∷ xs) f = elim (Bool-cases (p x)) [
    | inl t ↦ rw t (f x t, select-All P p xs f)
    | inr t ↦ rw t (select-All P p xs f)
  ]

module _ {ℓ κ μ} {A : Type ℓ} where
  pub All-weaken :
      (P : A → Type κ) (Q : A → Type μ) (xs : List A) → ((x : A) → P x → Q x) → All P xs → All Q xs
  All-weaken P Q [] f h = tt
  All-weaken P Q (x ∷ xs) f h = (f x h.0, All-weaken P Q xs f h.1)

module _ {ℓ κ} {A : Type ℓ} where
  pub All-snoc : (P : A → Type κ) (xs : List A) (a : A) → All P xs → P a → All P (xs ++ a ∷ [])
  All-snoc P [] a h p = (p, tt)
  All-snoc P (x ∷ xs) a h p = (h.0, All-snoc P xs a h.1 p)

  pub All-select : (P : A → Type κ) (p : A → Bool) (xs : List A) → All P xs → All P (select p xs)
  All-select P p [] h = tt
  All-select P p (x ∷ xs) h = elim (Bool-cases (p x)) [
    | inl kept ↦ rw kept (h.0, All-select P p xs h.1)
    | inr gone ↦ rw gone (All-select P p xs h.1)
  ]

-- `ORDER BY` ascending: rows are inserted one by one, behind those of an equal or smaller key.
module _ {ℓ} {A : Type ℓ} (key : A → ℕ) where
  abbrev pub insert_by : A → List A → List A
  insert_by a [] = a ∷ []
  insert_by a (x ∷ xs) =
      let rest = insert_by a xs in if leb (key x) (key a) then x ∷ rest else a ∷ x ∷ xs

  abbrev pub sort_onto : List A → List A → List A
  sort_onto acc [] = acc
  sort_onto acc (x ∷ xs) = sort_onto (insert_by x acc) xs

  abbrev pub order_by : List A → List A
  order_by xs = sort_onto [] xs

  pub sort_onto-append :
      (acc xs : List A) (a : A) → sort_onto acc (xs ++ a ∷ []) ≡ insert_by a (sort_onto acc xs)
  sort_onto-append acc [] a = refl
  sort_onto-append acc (x ∷ xs) a = sort_onto-append (insert_by x acc) xs a

  -- A row whose key is the largest goes to the end.
  pub insert_by-last :
      (a : A) (xs : List A) → All (λ x. key x ≤ key a) xs → insert_by a xs ≡ xs ++ a ∷ []
  insert_by-last a [] h = refl
  insert_by-last a (x ∷ xs) h = ground (arith, insert_by-last a xs h.1)

  All-insert_by : (P : A → Type 0) (a : A) (xs : List A) → P a → All P xs → All P (insert_by a xs)
  All-insert_by P a [] p h = (p, tt)
  All-insert_by P a (x ∷ xs) p h = ground (arith, All-insert_by P a xs p h.1)

  All-sort_onto :
      (P : A → Type 0) (acc xs : List A) → All P acc → All P xs → All P (sort_onto acc xs)
  All-sort_onto P acc [] h k = h
  All-sort_onto P acc (x ∷ xs) h k =
      All-sort_onto P (insert_by x acc) xs (All-insert_by P x acc k.0 h) k.1

  -- Sorting keeps what holds of all rows.
  pub All-order_by : (P : A → Type 0) (xs : List A) → All P xs → All P (order_by xs)
  All-order_by P xs h = All-sort_onto P [] xs tt h

  constant-sort_onto :
      (u : ℕ) (acc xs : List A)
      → All (λ x. key x ≡ u) acc
      → All (λ x. key x ≡ u) xs
      → sort_onto acc xs ≡ acc ++ xs
  constant-sort_onto u acc [] h k = sym (append-nil acc)
  constant-sort_onto u acc (x ∷ xs) h k =
      rw (insert_by-last x acc (All-weaken _ _ acc (λ y e. le_of_eq (e ∙ sym k.0)) h)) (
        constant-sort_onto u (acc ++ x ∷ []) xs (All-snoc _ acc x h k.0) k.1
        ∙ append_assoc acc (x ∷ []) xs)

  -- Rows of one key keep their order.
  pub order_by-constant : (u : ℕ) (xs : List A) → All (λ x. key x ≡ u) xs → order_by xs ≡ xs
  order_by-constant u xs h = constant-sort_onto u [] xs tt h

  -- A row behind all others is sorted behind all others.
  pub order_by-append :
      (a : A) (xs : List A)
      → All (λ x. key x ≤ key a) (order_by xs)
      → order_by (xs ++ a ∷ []) ≡ order_by xs ++ a ∷ []
  order_by-append a xs h = sort_onto-append [] xs a ∙ insert_by-last a (order_by xs) h

  All-insert_by_back :
      (P : A → Type 0) (a : A) (xs : List A) → All P (insert_by a xs) → P a × All P xs
  All-insert_by_back P a [] h = (h.0, tt)
  All-insert_by_back P a (x ∷ xs) h = elim (Bool-cases (leb (key x) (key a))) [
    | inl e ↦
        let k = rw e at h in let rest = All-insert_by_back P a xs k.1 in (rest.0, (k.0, rest.1))
    | inr e ↦ let k = rw e at h in (k.0, k.1)
  ]

  All-sort_onto_back :
      (P : A → Type 0) (acc xs : List A) → All P (sort_onto acc xs) → All P acc × All P xs
  All-sort_onto_back P acc [] h = (h, tt)
  All-sort_onto_back P acc (x ∷ xs) h =
      let (inserted, rest) = All-sort_onto_back P (insert_by x acc) xs h in
      let (here, before) = All-insert_by_back P x acc inserted in (before, (here, rest))

  pub All-order_by_back : (P : A → Type 0) (xs : List A) → All P (order_by xs) → All P xs
  All-order_by_back P xs h = (All-sort_onto_back P [] xs h).1

-- `ORDER BY` several columns: `before` tells which of two rows goes first; rows of which neither does
-- keep their order.
module _ {ℓ} {A : Type ℓ} (before : A → A → Bool) where
  abbrev insert_before : A → List A → List A
  insert_before a [] = a ∷ []
  insert_before a (x ∷ xs) =
      let later = insert_before a xs in if before x a then x ∷ later else a ∷ x ∷ xs

  abbrev pub sort_by : List A → List A
  sort_by [] = []
  sort_by (x ∷ xs) = insert_before x (sort_by xs)
