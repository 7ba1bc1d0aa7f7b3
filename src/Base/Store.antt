-- ===== src/Base/Store.antt =====
-- A database as the repositories see it: every statement may fail, and a transaction that
-- returns an error leaves nothing behind.
pub mod Laws
pub mod Keeps
pub mod Rules
use mathlib.Core.Bool.{Bool, true, false}
use mathlib.Core.List.{List, [], ◌∷◌}
use mathlib.Core.Option.{Option, none, some}

-- What the services tell apart by `errors.Is`; `unavailable` is any other failure of the driver.
pub data Error : Type 0 where
  unavailable record_not_found duplicated_key : Error
  insufficient_points chain_integrity : Error
  insufficient_stock idempotency_conflict : Error
  bad_payload invalid_event provider_failed : Error

-- `errors.Is`
abbrev pub is_missing : Error → Bool
is_missing record_not_found = true
is_missing _ = false

abbrev pub is_duplicated : Error → Bool
is_duplicated duplicated_key = true
is_duplicated _ = false

abbrev pub is_short_stock : Error → Bool
is_short_stock insufficient_stock = true
is_short_stock _ = false

pub data Result {ℓ} (A : Type ℓ) : Type ℓ where
  ok : A → Result A
  err : Error → Result A

-- The committed rows, and what the driver does to the statements to come: `true` fails one.
-- Behind the end of the list no statement fails.
pub record World (S : Type 0) : Type 0 where
  pub store : S
  pub faults : List Bool

abbrev pub M : Type 0 → Type 0 → Type 0
M S A = World S → Result A × World S

-- `First`: no row is `gorm.ErrRecordNotFound`.
abbrev pub found : {A : Type 0} → Option A → Result A
found none = err record_not_found
found (some a) = ok a

module _ {S : Type 0} where
  -- The rows `s`, with a driver that lets every statement through.
  abbrev pub calm : S → World S
  calm s = record { store = s; faults = [] }

  abbrev pub pure : {A : Type 0} → A → M S A
  pure a w = (ok a, w)

  abbrev pub throw : {A : Type 0} → Error → M S A
  throw e w = (err e, w)

  and_then : {A B : Type 0} → Result A × World S → (A → M S B) → Result B × World S
  and_then (ok a, w) f = f a w
  and_then (err e, w) f = (err e, w)

  infixl 5 ◌>>=◌ ◌>>◌
  unfoldable pub ◌>>=◌ : {A B : Type 0} → M S A → (A → M S B) → M S B
  unfolding and_then
  ◌>>=◌ m f w = and_then (m w) f

  abbrev pub ◌>>◌ : {A B : Type 0} → M S A → M S B → M S B
  m >> k = m >>= λ _. k

  -- What a statement does when the driver lets it through.
  run_statement : {A : Type 0} → (S → Result A × S) → S → List Bool → Result A × World S
  run_statement f s rest = let (r, s') = f s in (r, record { store = s'; faults = rest })

  next_statement : {A : Type 0} → (S → Result A × S) → S → List Bool → Result A × World S
  unfolding run_statement
  next_statement f s [] = run_statement f s []
  next_statement f s (false ∷ rest) = run_statement f s rest
  next_statement f s (true ∷ rest) = (err unavailable, record { store = s; faults = rest })

  -- One call of the database.
  unfoldable pub statement : {A : Type 0} → (S → Result A × S) → M S A
  unfolding next_statement
  statement f w = next_statement f w.store w.faults

  -- A query changes no row.
  abbrev pub query : {A : Type 0} → (S → Result A) → M S A
  query f = statement (λ s. (f s, s))

  -- A change that the database accepts.
  abbrev pub modify : (S → S) → M S (Unit {0})
  modify f = statement (λ s. (ok tt, f s))

  -- `BEGIN` and `COMMIT` may fail as well; a `COMMIT` that fails has not taken place.
  abbrev pub boundary : M S (Unit {0})
  boundary = statement (λ s. (ok tt, s))

  -- `ROLLBACK`
  abbrev pub settle : {A : Type 0} → S → Result A × World S → Result A × World S
  settle s (ok a, w) = (ok a, w)
  settle s (err e, w) = (err e, record w { store = s })

  unfoldable pub transaction : {A : Type 0} → M S A → M S A
  transaction m w = settle w.store ((do boundary; a ← m; boundary; pure a) w)

  -- The value of an action whatever it ends in: `if err := …; err == nil`.
  abbrev pub attempt : {A : Type 0} → M S A → M S (Result A)
  attempt m w = let (r, w') = m w in (ok r, w')

  abbrev pub lift : {A : Type 0} → Result A → M S A
  lift r w = (r, w)

  -- What does not go through the database, such as a call of another service: no fault of the
  -- driver meets it.
  unfoldable pub aside : {A : Type 0} → (S → A × S) → M S A
  aside f w = (ok (f w.store).0, record w { store = (f w.store).1 })
