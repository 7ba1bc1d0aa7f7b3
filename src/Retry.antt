-- ===== src/Retry.antt =====
-- pkg/consumerretry/retry.go: the delays between the attempts at a message, and the attempts.
pub mod Bounds
pub mod Tests
use pingu_coin.Base.{
  ℕ, zero, suc, ◌+◌, ◌-◌, ◌*◌, List, [], ◌∷◌, Bool, true, false, Option, none, some, ltb, min,
  if◌then◌else◌,
}
use pingu_coin.Base.Int.{ℤ, pos, negsuc}

-- Durations are in nanoseconds.
abbrev pub initial_backoff : ℕ
initial_backoff = 500000000

abbrev pub max_backoff : ℕ
max_backoff = 5000000000

-- Five more attempts may follow the first.
abbrev pub max_attempts : ℕ
max_attempts = 6

-- The loop of `Backoff`, with the rounds that are left.
unfoldable pub grow : ℕ → ℕ → ℕ
grow zero delay = delay
grow (suc left) delay =
    let next = grow left (if ltb max_backoff (delay * 2) then max_backoff else delay * 2) in
    if ltb delay max_backoff then next else delay

-- `Backoff`
unfoldable pub backoff : ℤ → ℕ
unfolding grow
backoff (pos n) = grow (n - 1) initial_backoff
backoff (negsuc n) = grow 0 initial_backoff

-- What happens at one attempt: how the operation ends, whether the context has ended then, and
-- whether it ends during the wait behind it, and how many nanoseconds into that wait.
pub record Attempt {ℓ} (E : Type ℓ) : Type ℓ where
  pub failure : Option E
  pub ended : Bool
  pub ended_waiting : Bool
  pub waited_until : ℕ

pub data Outcome {ℓ} (E : Type ℓ) : Type ℓ where
  done : Outcome E
  canceled : Outcome E
  exhausted : E → Outcome E

-- The outcome, with the number of attempts and the time waited.
pub record Run {ℓ} (E : Type ℓ) : Type ℓ where
  pub outcome : Outcome E
  pub attempts : ℕ
  pub waited : ℕ

module _ {ℓ} {E : Type ℓ} where
  abbrev pub later : ℕ → Run E → Run E
  later wait r = record r { attempts = suc r.attempts; waited = wait + r.waited }

  -- The end of a round in which the operation failed with `e`: `rest` is the rest of the loop.
  unfoldable pub after_failure : ℕ → ℕ → E → Attempt E → Run E → Run E
  unfolding backoff
  after_failure left n e a rest =
      if a.ended
      then record { outcome = canceled; attempts = 1; waited = 0 }
      else if ltb 0 left
      then if a.ended_waiting
        then record {
          outcome = canceled;
          attempts = 1;
          waited = min a.waited_until (backoff (pos n));
        }
        else later (backoff (pos n)) rest
      else record { outcome = exhausted e; attempts = 1; waited = 0 }

  unfoldable pub round : ℕ → ℕ → Option E → Attempt E → Run E → Run E
  unfolding after_failure
  round left n none a rest = record { outcome = done; attempts = 1; waited = 0 }
  round left n (some e) a rest = after_failure left n e a rest

  -- The loop of `Do` from attempt `n` on: `tries` tells what happens at each attempt.
  unfoldable pub try : (ℕ → Attempt E) → ℕ → ℕ → Run E
  unfolding round
  try tries zero n = record { outcome = canceled; attempts = 0; waited = 0 }
  try tries (suc left) n = round left n (tries n).failure (tries n) (try tries left (suc n))

  -- `Do`
  unfoldable pub do_retry : (ℕ → Attempt E) → Run E
  unfolding try
  do_retry tries = try tries max_attempts 1
