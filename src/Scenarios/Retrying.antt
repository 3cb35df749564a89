-- ===== src/Scenarios/Retrying.antt =====
-- Runs of internal/retry.
use pg_live_sync.Prelude.{◌≡◌, refl, ℕ, zero, suc, ◌≤◌, ◌*◌, none, arith}
use pg_live_sync.Errclass.{ok}
use pg_live_sync.Retry.{Round, default, backoff, do_retry}
use pg_live_sync.Retry.Bounds.{backoff_bounds, do_retry_calls, do_retry_success}
use pg_live_sync.Scenarios.{bad_round}

backoff_bounds_example :
    (1000000 ≤ backoff default 3 40000000)
    × (100000000 * 4 ≤ backoff default 3 40000000 * 5)
    × (backoff default 3 40000000 ≤ 2000000000)
unfolding pg_live_sync.Retry.base_backoff pg_live_sync.Retry.int64_lt
backoff_bounds_example =
    backoff_bounds default 3 40000000 (omega arith) (omega arith) (omega arith) (omega arith)
      (omega arith)

do_retry_calls_example :
    (1 ≤ (do_retry default "poll" bad_round).1) × ((do_retry default "poll" bad_round).1 ≤ 20)
do_retry_calls_example = do_retry_calls default "poll" bad_round (omega arith)

-- The first attempt fails, all others succeed.
abbrev pub second_round : ℕ → Round
second_round zero = bad_round 0
second_round (suc zero) = bad_round 1
second_round (suc (suc attempt)) = record { outcome = none; cancelled = none }

second_round_on : (j : ℕ) → (second_round j).cancelled ≡ none
second_round_on zero = refl
second_round_on (suc zero) = refl
second_round_on (suc (suc j)) = refl

do_retry_success_example : (do_retry default "poll" second_round).0 ≡ ok tt
do_retry_success_example =
    do_retry_success default "poll" second_round 2 (omega arith) (omega arith) refl
      (λ j from below. second_round_on j)
