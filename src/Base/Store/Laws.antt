-- ===== src/Base/Store/Laws.antt =====
-- What a program can have ended with, whatever statements fail: a postcondition on the result and
-- on the rows, and a rule for each way to build a program.
use pingu_coin.Base.Tests.{if◌then◌else◌}
use mathlib.Core.Path.{◌≡◌, refl, subst}
use mathlib.Core.Logic.{◌⊎◌, inl, inr}
use mathlib.Core.Bool.{Bool, true, false}
use mathlib.Core.List.{List, [], ◌∷◌}
use pingu_coin.Base.Store.{
  Error, Result, ok, err, World, M, and_then, ◌>>=◌, ◌>>◌, statement, next_statement, settle,
  attempt, boundary, query, modify, pure, throw, transaction, unavailable, aside, calm,
}

module _ {S A : Type 0} where
  -- Run on the rows `s`, whatever statements fail, `m` ends with a result and rows that `Q` admits.
  pub record Leads (m : M S A) (s : S) (Q : Result A → S → Type 0) : Type 0 where
    pub outcome :
        (faults : List Bool) → let (r, w) = m (record { store = s; faults = faults }) in Q r w.store

  -- What holds of every run holds of the one in which no statement fails.
  pub leads_calm :
      {m : M S A} {s t : S} {r : Result A} {Q : Result A → S → Type 0}
      → Leads m s Q
      → m (calm s) ≡ (r, calm t)
      → Q r t
  leads_calm {Q} l e = subst (λ x. Q x.0 x.1.store) e (l.outcome [])

  pub leads_pure : {Q : Result A → S → Type 0} {a : A} {s : S} → Q (ok a) s → Leads (pure a) s Q
  leads_pure q = record { outcome = λ faults. q }

  pub leads_throw :
      {Q : Result A → S → Type 0} {e : Error} {s : S} → Q (err e) s → Leads (throw {A = A} e) s Q
  leads_throw q = record { outcome = λ faults. q }

  next_statement-outcome :
      (Q : Result A → S → Type 0) (f : S → Result A × S) (s : S)
      → Q (err unavailable) s
      → Q (f s).0 (f s).1
      → (faults : List Bool) → let (r, w) = next_statement f s faults in Q r w.store
  unfolding next_statement
  next_statement-outcome Q f s failed passed [] = passed
  next_statement-outcome Q f s failed passed (false ∷ rest) = passed
  next_statement-outcome Q f s failed passed (true ∷ rest) = failed

  -- A statement is refused by the driver, or does what it says.
  pub leads_statement :
      {Q : Result A → S → Type 0} (f : S → Result A × S) {s : S}
      → Q (err unavailable) s
      → Q (f s).0 (f s).1
      → Leads (statement f) s Q
  unfolding statement
  leads_statement {Q} f {s} failed passed = record {
    outcome = next_statement-outcome Q f s failed passed;
  }

  -- A branch is taken with its test known.
  pub leads_if :
      {Q : Result A → S → Type 0} (b : Bool) {m n : M S A} {s : S}
      → (b ≡ true → Leads m s Q)
      → (b ≡ false → Leads n s Q)
      → Leads (if b then m else n) s Q
  leads_if true yes_branch no_branch = yes_branch refl
  leads_if false yes_branch no_branch = no_branch refl

  -- A postcondition may be weakened.
  pub leads_weaken :
      {P Q : Result A → S → Type 0} {m : M S A} {s : S}
      → Leads m s P
      → ((r : Result A) (t : S) → P r t → Q r t)
      → Leads m s Q
  leads_weaken l k = record { outcome = λ faults. k _ _ (l.outcome faults) }

module _ {S A B : Type 0} where
  and_then-outcome :
      (P : Result A → S → Type 0) (Q : Result B → S → Type 0) (f : A → M S B)
      → ((a : A) (t : S) → P (ok a) t → Leads (f a) t Q)
      → ((e : Error) (t : S) → P (err e) t → Q (err e) t)
      → (p : Result A × World S) → P p.0 p.1.store
      → let (r, w) = and_then p f in Q r w.store
  unfolding and_then
  and_then-outcome P Q f next stop (ok a, w) p = (next a w.store p).outcome w.faults
  and_then-outcome P Q f next stop (err e, w) p = stop e w.store p

  -- A sequence stops at the first error, or goes on from what the first part has left.
  pub leads_bind :
      {P : Result A → S → Type 0} {Q : Result B → S → Type 0} {m : M S A} {f : A → M S B} {s : S}
      → Leads m s P
      → ((a : A) (t : S) → P (ok a) t → Leads (f a) t Q)
      → ((e : Error) (t : S) → P (err e) t → Q (err e) t)
      → Leads (m >>= f) s Q
  unfolding ◌>>=◌
  leads_bind {P} {Q} {m} {f} {s} first next stop = record {
    outcome = λ faults. and_then-outcome P Q f next stop _ (first.outcome faults);
  }

  -- Nothing follows an error.
  pub leads_throw_bind :
      {Q : Result B → S → Type 0} (e : Error) (f : A → M S B) {s : S}
      → Q (err e) s
      → Leads (throw {A = A} e >>= f) s Q
  unfolding ◌>>=◌ and_then
  leads_throw_bind e f q = record { outcome = λ faults. q }

-- What a postcondition says of a success alone.
abbrev pub WhenOk : {S A : Type 0} → (A → S → Type 0) → Result A → S → Type 0
WhenOk Q (ok a) t = Q a t
WhenOk Q (err _) t = Unit

module _ {S A : Type 0} where
  settle-outcome :
      (Q : Result A → S → Type 0) (s : S) (p : Result A × World S)
      → WhenOk (λ a. Q (ok a)) p.0 p.1.store
      → ((e : Error) → Q (err e) s)
      → let (r, w) = settle s p in Q r w.store
  settle-outcome Q s (ok a, w) done back = done
  settle-outcome Q s (err e, w) done back = back e

  -- A transaction that ends in an error leaves the rows as they were.
  pub leads_transaction :
      {Q : Result A → S → Type 0} {m : M S A} {s : S}
      → Leads m s (WhenOk (λ a. Q (ok a)))
      → ((e : Error) → Q (err e) s)
      → Leads (transaction m) s Q
  unfolding transaction
  leads_transaction {Q} {m} {s} body back = record {
    outcome = λ faults. settle-outcome Q s _ (inside.outcome faults) back;
  }
    where
      commit : (a : A) (t : S) → Q (ok a) t → Leads (boundary >> pure a) t (WhenOk (λ b. Q (ok b)))
      commit a t q =
          leads_bind {P = λ _ v. Q (ok a) v} (leads_statement _ q q) (λ _ _ p. leads_pure p)
            (λ _ _ _. tt)

      inside : Leads (do boundary; a ← m; boundary; pure a) s (WhenOk (λ a. Q (ok a)))
      inside =
          leads_bind {P = λ _ t. Leads m t (WhenOk (λ a. Q (ok a)))} (leads_statement _ body body)
            (λ _ _ l. leads_bind l commit (λ _ _ _. tt)) (λ _ _ _. tt)

module _ {S A B : Type 0} where
  -- What goes on behind an attempt is given the result, an error too.
  pub leads_attempt :
      {Q : Result B → S → Type 0} {m : M S A} {f : Result A → M S B} {s : S}
      → Leads m s (λ r t. Leads (f r) t Q)
      → Leads (attempt m >>= f) s Q
  unfolding ◌>>=◌ and_then
  leads_attempt l = record { outcome = λ faults. (l.outcome faults).outcome _ }

module _ {S A B : Type 0} {Q : Result B → S → Type 0} where
  answer-Leads :
      (g : A → M S B) (s : S) (r : Result A)
      → ((a : A) → r ≡ ok a → Leads (g a) s Q)
      → ((e : Error) → Q (err e) s)
      → (faults : List Bool)
      → let (x, w) = and_then (r, record { store = s; faults = faults }) g in Q x w.store
  unfolding and_then
  answer-Leads g s (ok a) next back faults = (next a refl).outcome faults
  answer-Leads g s (err e) next back faults = back e

  next_statement-answer :
      (f : S → Result A) (g : A → M S B) (s : S)
      → ((a : A) → f s ≡ ok a → Leads (g a) s Q)
      → ((e : Error) → Q (err e) s)
      → (faults : List Bool)
      → let (x, w) = and_then (next_statement (λ t. (f t, t)) s faults) g in Q x w.store
  unfolding next_statement and_then
  next_statement-answer f g s next back [] = answer-Leads g s (f s) next back []
  next_statement-answer f g s next back (false ∷ rest) = answer-Leads g s (f s) next back rest
  next_statement-answer f g s next back (true ∷ rest) = back unavailable

  -- What follows a query runs on the same rows, with the answer that they give.
  pub leads_query :
      (f : S → Result A) (g : A → M S B) {s : S}
      → ((a : A) → f s ≡ ok a → Leads (g a) s Q)
      → ((e : Error) → Q (err e) s)
      → Leads (query f >>= g) s Q
  unfolding ◌>>=◌ statement
  leads_query f g {s} next back = record { outcome = next_statement-answer f g s next back }

module _ {S B : Type 0} {Q : Result B → S → Type 0} where
  -- What follows a change runs on the changed rows.
  pub leads_modify :
      (f : S → S) (m : M S B) {s : S}
      → Leads m (f s) Q
      → Q (err unavailable) s
      → Leads (modify f >> m) s Q
  leads_modify f m {s} next back =
      leads_bind {P = λ r t. elim r as (λ _. Type 0) [ ok _ ↦ Leads m t Q | err e ↦ Q (err e) t ]}
        (leads_statement _ back next) (λ _ _ l. l) (λ _ _ q. q)

  -- What follows a test runs where it passes.
  pub leads_guard :
      (b : Bool) (x : Error) (m : M S B) {s : S}
      → (b ≡ true → Leads m s Q)
      → Q (err x) s
      → Leads ((if b then pure tt else throw x) >> m) s Q
  unfolding ◌>>=◌ and_then
  leads_guard true x m next back = record { outcome = λ faults. (next refl).outcome faults }
  leads_guard false x m next back = record { outcome = λ faults. back }

module _ {S A B : Type 0} {Q : Result B → S → Type 0} where
  -- What follows a statement runs on the rows that it leaves.
  pub leads_step :
      (f : S → Result A × S) (g : A → M S B) {s : S}
      → ((a : A) (t : S) → f s ≡ (ok a, t) → Leads (g a) t Q)
      → ((e : Error) (t : S) → f s ≡ (err e, t) → Q (err e) t)
      → Q (err unavailable) s
      → Leads (statement f >>= g) s Q
  leads_step f g {s} next back lost =
      leads_bind {P = λ r t. (f s ≡ (r, t)) ⊎ ((r ≡ err unavailable) × (t ≡ s))}
        (leads_statement f (inr (refl, refl)) (inl refl))
        (λ a t p. elim p [ inl e ↦ next a t e | inr q ↦ absurd (never a q.0) ])
        (λ e t p. elim p [ inl q ↦ back e t q | inr q ↦ rw (q.1, same_error e q.0) lost ])
    where
      same_error : (e : Error) → ◌≡◌ {A = Result A} (err e) (err unavailable) → e ≡ unavailable
      same_error e q = cc

      never : (a : A) → ok a ≡ err unavailable → ⊥
      never a e = cc

module _ {S A B : Type 0} {Q : Result B → S → Type 0} where
  -- What follows a step aside of the database runs on what the step leaves.
  pub leads_aside :
      (f : S → A × S) (g : A → M S B) {s : S}
      → Leads (g (f s).0) (f s).1 Q
      → Leads (aside f >>= g) s Q
  unfolding aside ◌>>=◌ and_then
  leads_aside f g {s} next = record { outcome = λ faults. next.outcome faults }
