-- ===== src/Retry/Tests.antt =====
-- Runs of the loop.
use pingu_coin.Base.{ℕ, false, ◌==◌, none, some, if◌then◌else◌}
use pingu_coin.Retry.{Attempt, do_retry}
use pingu_coin.Retry.Bounds.{Told, do_retry-Told}

-- The third attempt succeeds.
abbrev third_time : ℕ → Attempt ℕ
third_time n = record {
  failure = if n == 3 then none else some n;
  ended = false;
  ended_waiting = false;
  waited_until = 0;
}

do_retry-Told_example : Told third_time 5 1 (do_retry third_time)
do_retry-Told_example = do_retry-Told third_time
