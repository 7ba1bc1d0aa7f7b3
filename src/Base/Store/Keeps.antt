-- ===== src/Base/Store/Keeps.antt =====
-- Programs that keep a property of the rows, whatever statements fail and whatever they end in.
use mathlib.Core.Bool.{Bool, true, false}
use pingu_coin.Base.Tests.{if◌then◌else◌}
use pingu_coin.Base.Store.{
  Error, Result, ok, err, M, ◌>>=◌, statement, query, modify, attempt, pure, throw, transaction,
}
use pingu_coin.Base.Store.Laws.{
  Leads, WhenOk, leads_pure, leads_throw, leads_statement, leads_bind, leads_transaction,
  leads_attempt, leads_weaken,
}

module _ {S : Type 0} where
  abbrev pub Keeps : {A : Type 0} → (S → Type 0) → M S A → Type 0
  Keeps I m = (s : S) → I s → Leads m s (λ _ t. I t)

module _ {S A : Type 0} {I : S → Type 0} where
  pub Keeps-pure : (a : A) → Keeps I (pure {S = S} a)
  Keeps-pure a s i = leads_pure i

  pub Keeps-throw : (e : Error) → Keeps I (throw {S = S} {A = A} e)
  Keeps-throw e s i = leads_throw i

  pub Keeps-query : (f : S → Result A) → Keeps I (query f)
  Keeps-query f s i = leads_statement _ i i

  pub Keeps-statement : (f : S → Result A × S) → ((s : S) → I s → I (f s).1) → Keeps I (statement f)
  Keeps-statement f h s i = leads_statement f i (h s i)

  pub Keeps-if : (b : Bool) (m n : M S A) → Keeps I m → Keeps I n → Keeps I (if b then m else n)
  Keeps-if true m n h k = h
  Keeps-if false m n h k = k

  pub Keeps-transaction : (m : M S A) → Keeps I m → Keeps I (transaction m)
  Keeps-transaction m h s i =
      leads_transaction (leads_weaken (h s i) (λ r t j. inside r t j)) (λ _. i)
    where
      inside : (r : Result A) (t : S) → I t → WhenOk (λ (_ : A) t. I t) r t
      inside (ok a) t j = j
      inside (err e) t j = tt

module _ {S : Type 0} {I : S → Type 0} where
  pub Keeps-modify : (f : S → S) → ((s : S) → I s → I (f s)) → Keeps I (modify f)
  Keeps-modify f h s i = leads_statement _ i (h s i)

module _ {S A B : Type 0} {I : S → Type 0} where
  pub Keeps-bind :
      (m : M S A) (f : A → M S B) → Keeps I m → ((a : A) → Keeps I (f a)) → Keeps I (m >>= f)
  Keeps-bind m f h k s i = leads_bind {P = λ _ t. I t} (h s i) (λ a t j. k a t j) (λ _ _ j. j)

  pub Keeps-attempt :
      (m : M S A) (f : Result A → M S B)
      → Keeps I m
      → ((r : Result A) → Keeps I (f r))
      → Keeps I (attempt m >>= f)
  Keeps-attempt m f h k s i = leads_attempt {f = f} (leads_weaken (h s i) (λ r t j. k r t j))
