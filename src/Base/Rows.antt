-- ===== src/Base/Rows.antt =====
-- Tables whose rows have ids: what an update by id does to a lookup.
use Prim.Native.Nat.{ℕ}
use mathlib.Core.Path.{◌≡◌, refl, sym, ◌∙◌, ap}
use mathlib.Core.Logic.{inl, inr}
use mathlib.Core.Bool.{Bool, true, false, true≢false}
use mathlib.Core.Option.{Option, none, some, some-injective}
use mathlib.Core.List.{List, [], ◌∷◌, ◌++◌}
use native.Mathlib.Omega.{arith}
use pingu_coin.Base.Tests.{◌==◌, ==_refl, ==_sym, if◌then◌else◌, Bool-cases}
use pingu_coin.Base.Lists.{All, find_first, exists, update_where}

module _ {ℓ} {A : Type ℓ} where
  -- A row that was looked up, behind an update of the rows that pass `p`.
  abbrev pub updated : (A → Bool) → (A → A) → Option A → Option A
  updated p f none = none
  updated p f (some a) = some (if p a then f a else a)

  pub find_first-update_where :
      (q p : A → Bool) (f : A → A)
      → ((a : A) → q (f a) ≡ q a)
      → (xs : List A) → find_first q (update_where p f xs) ≡ updated p f (find_first q xs)
  find_first-update_where q p f keeps [] = refl
  find_first-update_where q p f keeps (x ∷ xs) = elim (Bool-cases (q x)) [
    | inl here ↦ elim (Bool-cases (p x)) [
      | inl passes ↦ rw (passes, keeps x, here, passes) refl
      | inr stays ↦ rw (stays, here, stays) refl
    ]
    | inr elsewhere ↦ elim (Bool-cases (p x)) [
      | inl passes ↦ rw (passes, keeps x, elsewhere) (find_first-update_where q p f keeps xs)
      | inr stays ↦ rw (stays, elsewhere) (find_first-update_where q p f keeps xs)
    ]
  ]

  -- An update of other rows is not seen.
  pub find_first-update_elsewhere :
      (q p : A → Bool) (f : A → A)
      → ((a : A) → p a ≡ true → q a ≡ false)
      → ((a : A) → q (f a) ≡ false)
      → (xs : List A) → find_first q (update_where p f xs) ≡ find_first q xs
  find_first-update_elsewhere q p f old new [] = refl
  find_first-update_elsewhere q p f old new (x ∷ xs) = elim (Bool-cases (p x)) [
    | inl passes ↦ rw (passes, new x, old x passes) (find_first-update_elsewhere q p f old new xs)
    | inr stays ↦
        rw stays
          (ap (λ r. if q x then some x else r) (find_first-update_elsewhere q p f old new xs))
  ]

  -- Rows that are replaced by one that passes the test leave one that does.
  pub exists-replaced :
      (q p : A → Bool) (new : A)
      → q new ≡ true
      → (xs : List A) → exists q xs ≡ true
      → exists q (update_where p (λ _. new) xs) ≡ true
  exists-replaced q p new passes [] h = h
  exists-replaced q p new passes (x ∷ xs) h = elim (Bool-cases (p x)) [
    | inl replaced ↦ rw (replaced, passes) refl
    | inr stays ↦ elim (Bool-cases (q x)) [
      | inl here ↦ rw (stays, here) refl
      | inr later ↦ rw (stays, later) (exists-replaced q p new passes xs (rw later at h))
    ]
  ]

  pub exists-update_where :
      (q p : A → Bool) (f : A → A)
      → ((a : A) → q (f a) ≡ q a)
      → (xs : List A) → exists q (update_where p f xs) ≡ exists q xs
  exists-update_where q p f keeps [] = refl
  exists-update_where q p f keeps (x ∷ xs) =
      ground (arith, exists-update_where q p f keeps xs, keeps x)

  pub find_first-exists :
      (q : A → Bool) (xs : List A) (a : A) → find_first q xs ≡ some a → exists q xs ≡ true
  find_first-exists q [] a h = ground arith
  find_first-exists q (x ∷ xs) a h = ground (arith, find_first-exists q xs a)

  pub exists-weaken :
      (p q : A → Bool)
      → ((a : A) → p a ≡ true → q a ≡ true)
      → (xs : List A) → exists p xs ≡ true
      → exists q xs ≡ true
  exists-weaken p q h [] e = e
  exists-weaken p q h (x ∷ xs) e = elim (Bool-cases (p x)) [
    | inl here ↦ rw (h x here) refl
    | inr later ↦ elim (Bool-cases (q x)) [
      | inl other ↦ rw other refl
      | inr none_here ↦ rw none_here (exists-weaken p q h xs (rw later at e))
    ]
  ]

  pub find_first-missing :
      (q : A → Bool) (xs : List A) → find_first q xs ≡ none → exists q xs ≡ false
  find_first-missing q [] h = refl
  find_first-missing q (x ∷ xs) h = ground (arith, find_first-missing q xs)

  pub exists-append :
      (q : A → Bool) (xs : List A) (a : A)
      → exists q (xs ++ a ∷ []) ≡ (if exists q xs then true else q a)
  exists-append q [] a = ground arith
  exists-append q (x ∷ xs) a = ground (arith, exists-append q xs a)

module _ {ℓ} {A : Type ℓ} (id : A → ℕ) where
  -- No two rows have the same id.
  abbrev pub DistinctIds : List A → Type 0
  DistinctIds [] = Unit
  DistinctIds (x ∷ xs) = (exists (λ y. id y == id x) xs ≡ false) × DistinctIds xs

  pub listed :
      (q : A → Bool) (xs : List A) (a : A) (n : ℕ)
      → find_first q xs ≡ some a
      → id a ≡ n
      → exists (λ y. id y == n) xs ≡ true
  listed q [] a n h e = ground arith
  listed q (x ∷ xs) a n h e = elim (Bool-cases (q x)) [
    | inl here ↦
        let same = ap id (some-injective x a (rw here at h)) in rw (same, e, ==_refl n) refl
    | inr elsewhere ↦ rw (listed q xs a n (rw elsewhere at h) e) (ground arith)
  ]

  -- Two rows that are found, and have one id, are one row.
  pub same_row :
      (p q : A → Bool) (xs : List A) (a b : A)
      → DistinctIds xs
      → find_first p xs ≡ some a
      → find_first q xs ≡ some b
      → id a ≡ id b
      → a ≡ b
  same_row p q [] a b d h k e = ground arith
  same_row p q (x ∷ xs) a b d h k e = elim (Bool-cases (p x)) [
    | inl p_here ↦ elim (Bool-cases (q x)) [
      | inl q_here ↦ sym (some-injective x a (rw p_here at h)) ∙ some-injective x b (rw q_here at k)
      | inr q_later ↦
          let head = some-injective x a (rw p_here at h) in
          let found = listed q xs b (id x) (rw q_later at k) (sym e ∙ sym (ap id head)) in
          absurd (true≢false (sym found ∙ d.0))
    ]
    | inr p_later ↦ elim (Bool-cases (q x)) [
      | inl q_here ↦
          let head = some-injective x b (rw q_here at k) in
          let found = listed p xs a (id x) (rw p_later at h) (e ∙ sym (ap id head)) in
          absurd (true≢false (sym found ∙ d.0))
      | inr q_later ↦ same_row p q xs a b d.1 (rw p_later at h) (rw q_later at k) e
    ]
  ]

  -- A row with an id that no row has may be added.
  pub DistinctIds-append :
      (xs : List A) (a : A)
      → DistinctIds xs
      → exists (λ y. id y == id a) xs ≡ false
      → DistinctIds (xs ++ a ∷ [])
  DistinctIds-append [] a d h = (refl, tt)
  DistinctIds-append (x ∷ xs) a d h = elim (Bool-cases (id x == id a)) [
    | inl same ↦ absurd (true≢false (rw same at h))
    | inr other ↦ (
      exists-append (λ y. id y == id x) xs a ∙ rw (d.0, ==_sym (id a) (id x), other) refl,
      DistinctIds-append xs a d.1 (rw other at h),
    )
  ]

  -- An update that keeps ids keeps them distinct.
  pub DistinctIds-update_where :
      (p : A → Bool) (f : A → A)
      → ((a : A) → id (f a) ≡ id a)
      → (xs : List A) → DistinctIds xs
      → DistinctIds (update_where p f xs)
  DistinctIds-update_where p f keeps [] d = tt
  DistinctIds-update_where p f keeps (x ∷ xs) d =
      let rest = DistinctIds-update_where p f keeps xs d.1 in
      let head =
        exists-update_where (λ y. id y == id x) p f (λ a. ap (λ n. n == id x) (keeps a)) xs ∙ d.0 in
      elim (Bool-cases (p x)) [
        | inl passes ↦ rw (passes, keeps x) (head, rest)
        | inr stays ↦ rw stays (head, rest)
      ]

  -- The row that replaces the rows of an id is found by it.
  pub find_first-replaced :
      (n : ℕ) (new : A)
      → id new ≡ n
      → (xs : List A) → exists (λ x. id x == n) xs ≡ true
      → find_first (λ x. id x == n) (update_where (λ x. id x == n) (λ _. new) xs) ≡ some new
  find_first-replaced n new own [] h = ground arith
  find_first-replaced n new own (x ∷ xs) h = elim (Bool-cases (id x == n)) [
    | inl here ↦ rw (here, own, ==_refl n) refl
    | inr later ↦ rw (later, later) (find_first-replaced n new own xs (rw later at h))
  ]

module _ {ℓ κ} {A : Type ℓ} where
  pub All-update_where :
      (P : A → Type κ) (p : A → Bool) (f : A → A)
      → ((a : A) → P a → P (f a))
      → (xs : List A) → All P xs
      → All P (update_where p f xs)
  All-update_where P p f keeps [] h = tt
  All-update_where P p f keeps (x ∷ xs) h = elim (Bool-cases (p x)) [
    | inl passes ↦ rw passes (keeps x h.0, All-update_where P p f keeps xs h.1)
    | inr stays ↦ rw stays (h.0, All-update_where P p f keeps xs h.1)
  ]

  pub All-find_first :
      (P : A → Type κ) (q : A → Bool) (xs : List A) (a : A)
      → All P xs
      → find_first q xs ≡ some a
      → P a
  All-find_first P q [] a h e = absurd (none_some a e)
    where
      none_some : (a : A) → ¬ (◌≡◌ {A = Option A} none (some a))
      none_some a e = cc
  All-find_first P q (x ∷ xs) a h e = elim (Bool-cases (q x)) [
    | inl here ↦ rw (← some-injective x a (rw here at e)) h.0
    | inr elsewhere ↦ All-find_first P q xs a h.1 (rw elsewhere at e)
  ]
