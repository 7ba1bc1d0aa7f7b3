-- ===== src/Base/Store/Rules.antt =====
-- Rules that keep what an error says: a lookup that finds nothing, and a transaction whose body
-- fails.
use mathlib.Core.Path.{◌≡◌, refl}
use mathlib.Core.Logic.{inl, inr}
use mathlib.Core.Option.{Option, none, some}
use pingu_coin.Base.Tests.{Option-cases}
use pingu_coin.Base.Store.{
  Error, Result, ok, err, World, M, ◌>>=◌, ◌>>◌, settle, boundary, pure, transaction, unavailable,
  found, query, record_not_found, attempt,
}
use pingu_coin.Base.Store.Laws.{Leads, leads_bind, leads_statement, leads_pure, leads_attempt}

module _ {S A : Type 0} where
  settle-outcome :
      (P Q : Result A → S → Type 0) (s : S) (p : Result A × World S)
      → ((a : A) (t : S) → P (ok a) t → Q (ok a) t)
      → ((e : Error) (t : S) → P (err e) t → Q (err e) s)
      → P p.0 p.1.store
      → let (r, w) = settle s p in Q r w.store
  settle-outcome P Q s (ok a, w) done back h = done a w.store h
  settle-outcome P Q s (err e, w) done back h = back e w.store h

  -- A step before the end: `G` where it goes on, and `P` at an error.
  abbrev Through : (S → Type 0) → (Result A → S → Type 0) → Result (Unit {0}) → S → Type 0
  Through G P (ok _) t = G t
  Through G P (err e) t = P (err e) t

  pub leads_atomic :
      {P Q : Result A → S → Type 0} {m : M S A} {s : S}
      → Leads m s P
      → ((t : S) → P (err unavailable) t)
      → ((a : A) (t : S) → P (ok a) t → Q (ok a) t)
      → ((e : Error) (t : S) → P (err e) t → Q (err e) s)
      → Leads (transaction m) s Q
  unfolding transaction
  leads_atomic {P} {Q} {m} {s} body lost done back = record {
    outcome = λ faults. settle-outcome P Q s _ done back (inside.outcome faults);
  }
    where
      commit : (a : A) (t : S) → P (ok a) t → Leads (boundary >> pure a) t P
      commit a t q =
          leads_bind {P = Through (P (ok a)) P} (leads_statement _ (lost t) q)
            (λ _ _ p. leads_pure p) (λ e v p. p)

      inside : Leads (do boundary; a ← m; boundary; pure a) s P
      inside =
          leads_bind {P = Through (λ t. Leads m t P) P} (leads_statement _ (lost s) body)
            (λ _ _ l. leads_bind l commit (λ _ _ p. p)) (λ e v p. p)

pub found→some : {A : Type 0} (o : Option A) (a : A) → found o ≡ ok a → o ≡ some a
found→some none a e = cc
found→some (some b) a e = cc

module _ {S A B : Type 0} where
  abbrev Answers : (S → Option A) → S → (Result B → S → Type 0) → Result A → S → Type 0
  Answers look s Q (ok a) t = (look s ≡ some a) × (t ≡ s)
  Answers look s Q (err e) t = Q (err e) t

  -- A lookup finds a row, or ends the sequence by `record_not_found`.
  pub leads_found :
      {Q : Result B → S → Type 0} (look : S → Option A) (g : A → M S B) {s : S}
      → ((a : A) → look s ≡ some a → Leads (g a) s Q)
      → (look s ≡ none → Q (err record_not_found) s)
      → Q (err unavailable) s
      → Leads (query (λ x. found (look x)) >>= g) s Q
  leads_found {Q} look g {s} next missing lost =
      leads_bind {P = Answers look s Q} (leads_statement _ lost answers)
        (λ a t p. rw p.1 (next a p.0)) (λ e t q. q)
    where
      answers : Answers look s Q (found (look s)) s
      answers = elim (Option-cases (look s)) [
        | inl e ↦ rw e (missing e)
        | inr (a, e) ↦ rw e (e, refl)
      ]

  -- A lookup whose answer is looked at, an error too.
  pub leads_attempt_found :
      {Q : Result B → S → Type 0} (look : S → Option A) (g : Result A → M S B) {s : S}
      → Leads (g (found (look s))) s Q
      → Leads (g (err unavailable)) s Q
      → Leads (attempt (query (λ x. found (look x))) >>= g) s Q
  leads_attempt_found look g {s} looked lost =
      leads_attempt {f = g} (leads_statement (λ x. (found (look x), x)) lost looked)
