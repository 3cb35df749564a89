-- ===== src/Retry/Bounds.antt =====
-- Bounds of internal/retry/retry.go: how long a wait is, and how many attempts are made.
use pg_live_sync.Prelude.{
  ℕ, zero, suc, ◌+◌, ◌-◌, ◌*◌, ◌/◌, ◌%◌, ltb, ◌≤◌, ◌<◌, ◌≡◌, String, none, arith,
}
use native.Mathlib.Decide.{dec_lt}
use native.Mathlib.Nat.{le_refl}
use pg_live_sync.Errclass.{ok}
use pg_live_sync.Retry.{
  two_to_63, two_to_64, int64_lt, millisecond, Config, Round, double_up_to, base_backoff, backoff,
  do_from, do_retry,
}

abbrev pub two_to_62 : ℕ
two_to_62 = 4611686018427387904

-- On numbers below 2^63 the order of int64 is that of ℕ.
int64_lt-small : (a b : ℕ) → a < two_to_63 → b < two_to_63 → int64_lt a b ≡ ltb a b
unfolding int64_lt
int64_lt-small a b ha hb = ground arith

double_up_to-bounds :
    (max rounds delay : ℕ)
    → max < two_to_62
    → delay ≤ max
    → (delay ≤ double_up_to max rounds delay) × (double_up_to max rounds delay ≤ max)
unfolding double_up_to
double_up_to-bounds max zero delay small h =
    ground (arith, int64_lt-small max delay (omega arith) (omega arith))
double_up_to-bounds max (suc rounds) delay small h =
    let doubled : delay * 2 % two_to_64 ≡ delay * 2 = omega arith in
    rw (doubled, int64_lt-small (delay * 2) max (omega arith) (omega arith))
      (elim (dec_lt (delay * 2) max) [
        | yes below ↦ ground (arith, double_up_to-bounds max rounds (delay * 2) small (omega arith))
        | no above ↦ ground arith
      ])

-- Where 1 ≤ Base ≤ Max, and Max is at least a millisecond and below 2^62 nanoseconds (over a hundred
-- years), a wait lies between four fifths of Base (or one millisecond, if that is more) and Max,
-- whatever the attempt and whatever number of the allowed range is drawn: no doubling wraps around.
pub backoff_bounds :
    (c : Config) (attempt shrink : ℕ)
    → 1 ≤ c.base
    → c.base ≤ c.max
    → millisecond ≤ c.max
    → c.max < two_to_62
    → shrink ≤ base_backoff c attempt / 5
    → (millisecond ≤ backoff c attempt shrink)
      × (c.base * 4 ≤ backoff c attempt shrink * 5)
      × (backoff c attempt shrink ≤ c.max)
unfolding backoff base_backoff
backoff_bounds c attempt shrink pos ordered least small drawn =
    let (low, high) = double_up_to-bounds c.max (attempt - 1) c.base small ordered in
    let delay = double_up_to c.max (attempt - 1) c.base in
    let same : (delay + (two_to_64 - shrink)) % two_to_64 ≡ delay - shrink = omega arith in
    rw (same, int64_lt-small (delay - shrink) millisecond (omega arith) (omega arith))
      (ground arith)

do_from_calls :
    (c : Config) (operation : String) (meets : ℕ → Round) (attempt left : ℕ)
    → (attempt ≤ (do_from c operation meets attempt left).1)
      × ((do_from c operation meets attempt left).1 ≤ attempt + left)
unfolding do_from
do_from_calls c operation meets attempt zero = ground arith
do_from_calls c operation meets attempt (suc left) =
    ground (arith, do_from_calls c operation meets (suc attempt) left)

-- `Do` calls its function at least once, and at most MaxRetries times where MaxRetries is positive.
pub do_retry_calls :
    (c : Config) (operation : String) (meets : ℕ → Round)
    → 1 ≤ c.max_retries
    → (1 ≤ (do_retry c operation meets).1) × ((do_retry c operation meets).1 ≤ c.max_retries)
unfolding do_retry
do_retry_calls c operation meets pos =
    let (least, most) = do_from_calls c operation meets 1 (c.max_retries - 1) in
    (omega arith, omega arith)

do_from_success :
    (c : Config) (operation : String) (meets : ℕ → Round) (attempt left at : ℕ)
    → attempt ≤ at
    → at ≤ attempt + left
    → (meets at).outcome ≡ none
    → ((j : ℕ) → attempt ≤ j → j < at → (meets j).cancelled ≡ none)
    → (do_from c operation meets attempt left).0 ≡ ok tt
unfolding do_from
do_from_success c operation meets attempt zero at low high won on =
    let same : at ≡ attempt = omega arith in let first = rw same at won in ground arith
do_from_success c operation meets attempt (suc left) at low high won on = elim (dec_lt attempt at) [
  | yes before ↦ ground (
    arith,
    on attempt (le_refl attempt) before,
    do_from_success c operation meets (suc attempt) left at before (omega arith) won
        (λ j from below. on j (omega arith) below),
  )
  | no reached ↦ let same : at ≡ attempt = omega arith in let first = rw same at won in ground arith
]

-- `Do` succeeds if some attempt within MaxRetries succeeds and the context does not end in a wait
-- before it.
pub do_retry_success :
    (c : Config) (operation : String) (meets : ℕ → Round) (at : ℕ)
    → 1 ≤ at
    → at ≤ c.max_retries
    → (meets at).outcome ≡ none
    → ((j : ℕ) → 1 ≤ j → j < at → (meets j).cancelled ≡ none)
    → (do_retry c operation meets).0 ≡ ok tt
unfolding do_retry
do_retry_success c operation meets at low high won on =
    do_from_success c operation meets 1 (c.max_retries - 1) at low (omega arith) won on
