-- ===== src/Prelude/Numerals.antt =====
-- strconv.Atoi and strconv.ParseInt(s, 10, 64): a decimal number with an optional sign.
use Prim.Native.Char.{code}
use Prim.Native.Nat.{ℕ, ◌+◌, ◌-◌, ◌*◌, ◌^◌}
use Prim.Native.String.{String}
use mathlib.Core.Bool.{Bool, true, false, ◌&&◌}
use mathlib.Core.Option.{Option, none, some}
use pg_live_sync.Prelude.Tests.{◌==◌, leb, ltb, if◌then◌else◌}
use pg_live_sync.Prelude.Int.{ℤ, pos, sub_ℕ}

-- The digits after those that gave `value`.
unfoldable pub more_digits : String → ℕ → Option ℕ
more_digits String.[] value = some value
more_digits (String.◌∷◌ c s) value =
    let rest = more_digits s (value * 10 + (code c - 48)) in
    if leb 48 (code c) && leb (code c) 57 then rest else none

unfoldable pub digits : String → Option ℕ
unfolding more_digits
digits String.[] = none
digits (String.◌∷◌ c s) = more_digits (String.◌∷◌ c s) 0

-- Out of the range of int64 there is an error.
abbrev pub ranged : Bool → Option ℕ → Option ℤ
ranged negative none = none
ranged true (some value) = if leb value (2 ^ 63) then some (sub_ℕ 0 value) else none
ranged false (some value) = if ltb value (2 ^ 63) then some (pos value) else none

unfoldable pub parse_int : String → Option ℤ
unfolding digits
parse_int String.[] = none
parse_int (String.◌∷◌ c s) =
    if code c == 45
    then ranged true (digits s)
    else if code c == 43
    then ranged false (digits s)
    else ranged false (digits (String.◌∷◌ c s))
