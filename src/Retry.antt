-- ===== src/Retry.antt =====
-- internal/retry/retry.go. Durations are int64 numbers of nanoseconds that wrap
-- around; what time, the context and the random source
-- answer comes in as arguments.
pub mod Bounds
use pg_live_sync.Prelude.{
  ℕ, zero, suc, ◌+◌, ◌-◌, ◌*◌, ◌%◌, ltb, Bool, true, false, Option, none, some, List, [], ◌∷◌,
  String, if◌then◌else◌,
}
use pg_live_sync.Errclass.{Error, wrapf, transport, Result, ok, err}

-- time.Duration: nanoseconds as an int64, a word of 64 bits whose upper half is negative
abbrev pub two_to_64 : ℕ
two_to_64 = 18446744073709551616

abbrev pub two_to_63 : ℕ
two_to_63 = 9223372036854775808

-- The order of int64.
unfoldable pub int64_lt : ℕ → ℕ → Bool
int64_lt a b = ltb ((a + two_to_63) % two_to_64) ((b + two_to_63) % two_to_64)

abbrev pub millisecond : ℕ
millisecond = 1000000

pub record Config : Type 0 where
  pub base : ℕ
  pub max : ℕ
  pub max_retries : ℕ

abbrev pub default : Config
default = record { base = 100 * millisecond; max = 2000 * millisecond; max_retries = 20 }

-- The loop of `baseBackoff`: the doublings left, and the delay.
unfoldable pub double_up_to : ℕ → ℕ → ℕ → ℕ
double_up_to max zero delay = if int64_lt max delay then max else delay
double_up_to max (suc rounds) delay =
    let rest = double_up_to max rounds (delay * 2 % two_to_64) in
    if int64_lt (delay * 2 % two_to_64) max then rest else max

unfoldable pub base_backoff : Config → ℕ → ℕ
unfolding double_up_to
base_backoff c attempt = double_up_to c.max (attempt - 1) c.base

-- `shrink` is rand.Int64N(delay/5 + 1), which panics where that bound is not positive.
unfoldable pub backoff : Config → ℕ → ℕ → ℕ
unfolding base_backoff
backoff c attempt shrink =
    let delay = (base_backoff c attempt + (two_to_64 - shrink)) % two_to_64 in
    if int64_lt delay millisecond then millisecond else delay

-- What one round meets: the result of `fn`, and whether the context ends during the wait after it.
pub record Round : Type 0 where
  pub outcome : Option Error
  pub cancelled : Option Error

-- The rounds of `Do` from an attempt on, with the attempts that may follow it: what it returns, and
-- how often `fn` was called. No attempt is left exactly where the attempt has reached MaxRetries.
unfoldable pub do_from : Config → String → (ℕ → Round) → ℕ → ℕ → Result (Unit {0}) × ℕ
do_from c operation meets attempt zero = elim (meets attempt).outcome [
  | none ↦ (ok tt, attempt)
  | some e ↦ (err (wrapf "%s: %w" (operation ∷ []) e), attempt)
]
do_from c operation meets attempt (suc left) =
    let rest = do_from c operation meets (suc attempt) left in
    elim (meets attempt).outcome [
      | none ↦ (ok tt, attempt)
      | some e ↦ elim (meets attempt).cancelled [ none ↦ rest | some ended ↦ (err ended, attempt) ]
    ]

-- `Do`
unfoldable pub do_retry : Config → String → (ℕ → Round) → Result (Unit {0}) × ℕ
unfolding do_from
do_retry c operation meets = do_from c operation meets 1 (c.max_retries - 1)
