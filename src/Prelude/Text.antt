-- ===== src/Prelude/Text.antt =====
-- Text as the program builds it: concatenation, decimal numbers, the order of `sort.Strings`.
use Prim.Native.Nat.{ℕ, zero, suc, ◌/◌, ◌%◌}
use Prim.Native.String.{String, compare, ◌++◌ as str_append}
use mathlib.Core.Bool.{Bool, false, ◌||◌}
use mathlib.Core.List.{List, [], ◌∷◌}
use text.Mathlib.Text.{is_le, ◌==◌ as str_eq}
use pg_live_sync.Prelude.Tests.{◌==◌, ltb, if◌then◌else◌}

-- `fmt.Sprintf` and `strings.Builder`, one piece after another.
unfoldable pub concat : List String → String
concat [] = ""
concat (s ∷ ss) = str_append s (concat ss)

-- `strings.Join`
unfoldable pub join : String → List String → String
join sep [] = ""
join sep (s ∷ []) = s
join sep (s ∷ t ∷ ts) = str_append s (str_append sep (join sep (t ∷ ts)))

digit : ℕ → String
digit d =
    if d == 0
    then "0"
    else if d == 1
    then "1"
    else if d == 2
    then "2"
    else if d == 3
    then "3"
    else if d == 4
    then "4"
    else if d == 5
    then "5"
    else if d == 6
    then "6"
    else if d == 7
    then "7"
    else if d == 8
    then "8"
    else "9"

digits : ℕ → ℕ → String
digits zero n = ""
digits (suc fuel) n =
    let more = digits fuel (n / 10) in
    if ltb n 10 then digit n else str_append more (digit (n % 10))

-- `strconv.Itoa` of a number that is not negative; it has at most `n + 1` digits.
unfoldable pub itoa : ℕ → String
unfolding digit digits
itoa n = digits (suc n) n

-- `sort.Strings`: the byte order, as an insertion sort.
unfoldable pub str_leb : String → String → Bool
str_leb s t = is_le (compare s t)

unfoldable pub insert_sorted : String → List String → List String
insert_sorted s [] = s ∷ []
insert_sorted s (t ∷ ts) = if str_leb s t then s ∷ t ∷ ts else t ∷ insert_sorted s ts

unfoldable pub sort_strings : List String → List String
sort_strings [] = []
sort_strings (s ∷ ss) = insert_sorted s (sort_strings ss)

unfoldable pub contains_string : List String → String → Bool
contains_string [] target = false
contains_string (value ∷ values) target = str_eq value target || contains_string values target
