-- ===== src/Retry/Bounds.antt =====
-- The delays double up to their bound, and the attempts are bounded.
use pingu_coin.Base.{
  ℕ, zero, suc, ◌+◌, ◌-◌, ◌*◌, ◌≤◌, true, none, some, ltb, if◌then◌else◌, ◌≡◌, ◌∙◌, ap, refl, arith,
  Option-cases, min, Bool-cases, inl, inr,
}
use pingu_coin.Base.Int.{pos}
use pingu_coin.Retry.{
  initial_backoff, max_backoff, grow, backoff, Attempt, Outcome, done, canceled, exhausted, Run,
  later, after_failure, round, try, do_retry,
}

-- `d` doubled `k` times.
pub doubled : ℕ → ℕ → ℕ
doubled zero d = d
doubled (suc k) d = doubled k (d * 2)

doubled-grows : (k d : ℕ) → d ≤ doubled k d
unfolding doubled
doubled-grows zero d = omega arith
doubled-grows (suc k) d = omega (arith, doubled-grows k (d * 2))

grow-max : (k : ℕ) → grow k max_backoff ≡ max_backoff
unfolding grow
grow-max zero = refl
grow-max (suc k) = refl

grow-doubled :
    (k d : ℕ)
    → d ≤ max_backoff
    → grow k d ≡ (if ltb max_backoff (doubled k d) then max_backoff else doubled k d)
unfolding grow doubled
grow-doubled zero d h = ground arith
grow-doubled (suc k) d h =
    ground (arith, grow-max k, grow-doubled k (d * 2), doubled-grows k (d * 2))

-- The wait behind attempt `n` is the initial backoff doubled `n - 1` times, but no more than the
-- maximal backoff.
pub backoff-doubled :
    (n : ℕ)
    → backoff (pos n) ≡ (
        if ltb max_backoff (doubled (n - 1) initial_backoff)
        then max_backoff
        else doubled (n - 1) initial_backoff)
unfolding backoff
backoff-doubled n = grow-doubled (n - 1) initial_backoff (omega arith)

grow-bounds : (k d : ℕ) → d ≤ max_backoff → (d ≤ grow k d) × (grow k d ≤ max_backoff)
unfolding grow
grow-bounds zero d h = (omega arith, h)
grow-bounds (suc k) d h = ground (arith, grow-bounds k (d * 2), grow-max k)

module _ {ℓ} {E : Type ℓ} (tries : ℕ → Attempt E) where
  -- What a run of the loop from attempt `n` on says of the attempts, with `left` more attempts
  -- behind the first.
  pub record Told (left n : ℕ) (r : Run E) : Type ℓ where
    pub some_attempt : 1 ≤ r.attempts
    pub bounded : r.attempts ≤ suc left
    pub patient : r.waited ≤ left * max_backoff
    pub finished : r.outcome ≡ done → (tries (n + (r.attempts - 1))).failure ≡ none
    pub gave_up :
        (e : E)
        → r.outcome ≡ exhausted e
        → (r.attempts ≡ suc left) × ((tries (n + left)).failure ≡ some e)

  same_attempt : (n : ℕ) → n + 0 ≡ n
  same_attempt n = omega arith

  not_exhausted : (x : E) → ¬ (◌≡◌ {A = Outcome E} done (exhausted x))
  not_exhausted x h = cc

  never_done : ¬ (◌≡◌ {A = Outcome E} canceled done)
  never_done h = cc

  never_exhausted : (x : E) → ¬ (◌≡◌ {A = Outcome E} canceled (exhausted x))
  never_exhausted x h = cc

  exhausted_done : (x : E) → ¬ (◌≡◌ {A = Outcome E} (exhausted x) done)
  exhausted_done x h = cc

  exhausted-injective : (x y : E) → ◌≡◌ {A = Outcome E} (exhausted x) (exhausted y) → x ≡ y
  exhausted-injective x y h = cc

  finished-Told :
      (left n : ℕ)
      → (tries n).failure ≡ none
      → Told left n (record { outcome = done; attempts = 1; waited = 0 })
  finished-Told left n e = record {
    some_attempt = omega arith;
    bounded = omega arith;
    patient = omega arith;
    finished = λ _. rw (same_attempt n) e;
    gave_up = λ x h. absurd (not_exhausted x h);
  }

  canceled-Told :
      (left n wait : ℕ)
      → wait ≤ left * max_backoff
      → Told left n (record { outcome = canceled; attempts = 1; waited = wait })
  canceled-Told left n wait h = record {
    some_attempt = omega arith;
    bounded = omega arith;
    patient = h;
    finished = λ h. absurd (never_done h);
    gave_up = λ x h. absurd (never_exhausted x h);
  }

  exhausted-Told :
      (n : ℕ) (x : E)
      → (tries n).failure ≡ some x
      → Told 0 n (record { outcome = exhausted x; attempts = 1; waited = 0 })
  exhausted-Told n x e = record {
    some_attempt = omega arith;
    bounded = omega arith;
    patient = omega arith;
    finished = λ h. absurd (exhausted_done x h);
    gave_up = λ y h. (refl, rw (same_attempt n) (e ∙ ap some (exhausted-injective x y h)));
  }

  later-Told :
      (left n : ℕ) (wait : ℕ) (r : Run E)
      → wait ≤ max_backoff
      → Told left (suc n) r
      → Told (suc left) n (later wait r)
  later-Told left n wait r h t = record {
    some_attempt = omega arith;
    bounded = omega (arith, t.bounded);
    patient = omega (arith, t.patient);
    finished = λ e. rw (next_attempt n r.attempts t.some_attempt) (t.finished e);
    gave_up = λ x e.
        let (count, last) = t.gave_up x e in (omega (arith, count), rw (next_number n left) last);
  }
    where
      next_attempt : (n a : ℕ) → 1 ≤ a → n + (suc a - 1) ≡ suc n + (a - 1)
      next_attempt n a h = omega arith

      next_number : (n left : ℕ) → n + suc left ≡ suc n + left
      next_number n left = omega arith

  backoff_bounded : (n : ℕ) → backoff (pos n) ≤ max_backoff
  unfolding backoff
  backoff_bounded n = (grow-bounds (n - 1) initial_backoff (omega arith)).1

  last-Told :
      (n : ℕ) (x : E) (rest : Run E)
      → (tries n).failure ≡ some x
      → Told 0 n (after_failure 0 n x (tries n) rest)
  unfolding after_failure
  last-Told n x rest e = elim (Bool-cases (tries n).ended) [
    | inl ended ↦ rw ended (canceled-Told 0 n 0 (omega arith))
    | inr goes_on ↦ rw goes_on (exhausted-Told n x e)
  ]

  another : (left : ℕ) → ltb 0 (suc left) ≡ true
  another left = ground arith

  cut_short : (a b left : ℕ) → b ≤ max_backoff → min a b ≤ suc left * max_backoff
  cut_short a b left h = ground arith

  more-Told :
      (left n : ℕ) (x : E) (rest : Run E)
      → Told left (suc n) rest
      → Told (suc left) n (after_failure (suc left) n x (tries n) rest)
  unfolding after_failure
  more-Told left n x rest t = elim (Bool-cases (tries n).ended) [
    | inl ended ↦ rw ended (canceled-Told (suc left) n 0 (omega arith))
    | inr goes_on ↦ elim (Bool-cases (tries n).ended_waiting) [
      | inl ended ↦
          rw (goes_on, another left, ended)
            (canceled-Told (suc left) n (min (tries n).waited_until (backoff (pos n)))
              (cut_short (tries n).waited_until (backoff (pos n)) left (backoff_bounded n)))
      | inr waits ↦
          rw (goes_on, another left, waits)
            (later-Told left n (backoff (pos n)) rest (backoff_bounded n) t)
    ]
  ]

  try-Told : (left n : ℕ) → Told left n (try tries (suc left) n)
  unfolding try round
  try-Told zero n = elim (Option-cases (tries n).failure) [
    | inl e ↦ rw e (finished-Told 0 n e)
    | inr (x, e) ↦ rw e (last-Told n x (try tries 0 (suc n)) e)
  ]
  try-Told (suc left) n = elim (Option-cases (tries n).failure) [
    | inl e ↦ rw e (finished-Told (suc left) n e)
    | inr (x, e) ↦ rw e (more-Told left n x (try tries (suc left) (suc n)) (try-Told left (suc n)))
  ]

  -- `Do` ends after one to six attempts and has waited for no more than five times the maximal
  -- backoff; it succeeds only where its last attempt did, and gives up only with the error of the
  -- sixth.
  pub do_retry-Told : Told 5 1 (do_retry tries)
  unfolding do_retry
  do_retry-Told = try-Told 5 1
