-- ===== src/Config.antt =====
-- What both binaries and cdcctl (cmd/source-reader/main.go, cmd/destination-writer/main.go and
-- cmd/cdcctl/main.go) do with the text of their configuration: `envOrDefault` and `splitAndTrim`.
pub mod Brokers
use Prim.Native.Char.{Char, code}
use pg_live_sync.Prelude.{
  ℕ, ◌+◌, ◌==◌, leb, String, str_eq, Bool, true, false, ◌&&◌, ◌||◌, List, [], ◌∷◌, Option, none,
  some, if◌then◌else◌,
}

-- unicode.IsSpace
unfoldable pub is_space : ℕ → Bool
is_space c =
    (leb 9 c && leb c 13)
    || c == 32
    || c == 0x85
    || c == 0xa0
    || c == 0x1680
    || (leb 0x2000 c && leb c 0x200a)
    || c == 0x2028
    || c == 0x2029
    || c == 0x202f
    || c == 0x205f
    || c == 0x3000

unfoldable pub trim_left : String → String
trim_left String.[] = String.[]
trim_left (String.◌∷◌ c s) =
    let rest = trim_left s in if is_space (code c) then rest else String.◌∷◌ c s

-- A character before a text that is trimmed on its right.
unfoldable pub before_trimmed : Char → String → String
before_trimmed c String.[] = if is_space (code c) then String.[] else String.◌∷◌ c String.[]
before_trimmed c (String.◌∷◌ d s) = String.◌∷◌ c (String.◌∷◌ d s)

unfoldable pub trim_right : String → String
unfolding before_trimmed
trim_right String.[] = String.[]
trim_right (String.◌∷◌ c s) = before_trimmed c (trim_right s)

-- strings.TrimSpace
unfoldable pub trim_space : String → String
unfolding trim_left trim_right
trim_space s = trim_right (trim_left s)

-- The first part gets one more character in front.
unfoldable pub put_first : Char → List String → List String
put_first c [] = String.◌∷◌ c String.[] ∷ []
put_first c (part ∷ parts) = String.◌∷◌ c part ∷ parts

-- strings.Split at one character, given by its code
unfoldable pub split_on : ℕ → String → List String
unfolding put_first
split_on q String.[] = "" ∷ []
split_on q (String.◌∷◌ c s) =
    let parts = split_on q s in if code c == q then "" ∷ parts else put_first c parts

unfoldable pub trimmed_parts : List String → List String
unfolding trim_space
trimmed_parts [] = []
trimmed_parts (part ∷ parts) =
    let rest = trimmed_parts parts in
    if str_eq (trim_space part) "" then rest else trim_space part ∷ rest

-- `splitAndTrim`; the comma has code 44
unfoldable pub split_and_trim : String → List String
unfolding split_on trimmed_parts
split_and_trim value = trimmed_parts (split_on 44 value)

-- `envOrDefault`; `value` is what os.Getenv gives, the empty text where the variable is not set
unfoldable pub env_or_default : String → String → String
unfolding trim_space
env_or_default value fallback = if str_eq (trim_space value) "" then fallback else trim_space value

before_part : Char → Option (String × String) → Option (String × String)
before_part c none = none
before_part c (some (left, right)) = some (String.◌∷◌ c left, right)

-- strings.SplitN(s, q, 2) where s contains q, else `none`
unfoldable pub cut : ℕ → String → Option (String × String)
unfolding before_part
cut q String.[] = none
cut q (String.◌∷◌ c s) =
    let later = cut q s in if code c == q then some ("", s) else before_part c later
