-- ===== src/Source/Tuple/Keys.antt =====
-- `primaryKey` and `equalRows` of internal/source/decoder.go.
use pg_live_sync.Prelude.{
  ◌≡◌, refl, inl, inr, Bool-cases, String, str_eq, eq_iff, true, false, Option, none, some, List,
  [], ◌∷◌, arith, length, is_empty, lookup, insert, lookup-insert,
}
use mathlib.Core.Path.{subst}
use pg_live_sync.Errclass.{ok, >>=-eq-ok, ok-injective}
use pg_live_sync.Cdc.{Row}
use pg_live_sync.Source.Messages.{Relation}
use pg_live_sync.Source.Tuple.{
  collect_key, key_columns, primary_key, key_value, all_matched, equal_rows, equal_values, matches,
}

-- The key has a column only with the row's own value, which is not NULL.
abbrev pub IsKeyOf : Row → Row → Type 0
IsKeyOf key row =
    (column : String) (value : Option String)
    → lookup column key ≡ some value
    → (text : String) × (value ≡ some text) × (lookup column row ≡ some (some text))

nothing : (row : Row) → IsKeyOf [] row
unfolding lookup
nothing row column value here = cc

collect_step :
    (column : String) (row key : Row) (text : String)
    → lookup column row ≡ some (some text)
    → IsKeyOf key row
    → IsKeyOf (insert column (some text) key) row
collect_step column row key text found h other value here =
    elim (Bool-cases (str_eq column other)) [
      | inl same ↦ (
        text,
        ground (arith, lookup-insert column other (some text) key),
        ground (arith, eq_iff column other),
      )
      | inr differs ↦ h other value (rw (lookup-insert, differs) at here)
    ]

key_value_found :
    (column : String) (found : Option (Option String)) {text : String}
    → key_value column found ≡ ok text
    → found ≡ some (some text)
unfolding key_value
key_value_found column none h = cc
key_value_found column (some none) h = cc
key_value_found column (some (some value)) h = cc

collect_key-IsKeyOf :
    (columns : List String) (row key : Row) {result : Row}
    → collect_key columns row key ≡ ok result
    → IsKeyOf key row
    → IsKeyOf result row
unfolding collect_key
collect_key-IsKeyOf [] row key h k = subst (λ m. IsKeyOf m row) (ok-injective h) k
collect_key-IsKeyOf (column ∷ columns) row key h k =
    let (text, found, more) = >>=-eq-ok (key_value column (lookup column row)) _ h in
    collect_key-IsKeyOf columns row (insert column (some text) key) more
      (collect_step column row key text (key_value_found column (lookup column row) found) k)

-- A key that `primaryKey` returns is not empty, and holds only values of the row, none of them NULL.
pub primary_key-IsKeyOf :
    (catalog : Option (List String)) (relation : Relation) (row key : Row)
    → primary_key catalog relation row ≡ ok key
    → IsKeyOf key row × (is_empty key ≡ false)
unfolding primary_key
primary_key-IsKeyOf catalog relation row key h =
    let (found, collected, more) =
      >>=-eq-ok (collect_key (key_columns catalog relation) row []) _ h in
    let whole = collect_key-IsKeyOf (key_columns catalog relation) row [] collected (nothing row) in
    elim (Bool-cases (is_empty found)) [
      | inl none_left ↦ absurd (ground arith)
      | inr kept ↦
          let same : found ≡ key = ground arith in
          (subst (λ m. IsKeyOf m row) same whole, rw (← same) kept)
    ]

same_value : (v : Option String) (w : Option (Option String)) → matches v w ≡ true → w ≡ some v
unfolding matches equal_values
same_value none none h = cc
same_value (some a) none h = cc
same_value none (some none) h = refl
same_value none (some (some b)) h = cc
same_value (some a) (some none) h = cc
same_value (some a) (some (some b)) h = ground (arith, eq_iff a b)

all_matched_lem :
    (left right : Row) (column : String) (value : Option String)
    → all_matched left right ≡ true
    → lookup column left ≡ some value
    → lookup column right ≡ some value
unfolding all_matched equal_values lookup
all_matched_lem [] right column value h found = cc
all_matched_lem ((c, v) ∷ left) right column value h found =
    ground (
      arith,
      eq_iff c column,
      same_value v (lookup c right),
      all_matched_lem left right column value,
    )

-- Where the old key and the new key of an update count as equal, each column of the old key has the
-- same value in the new one, and they have equally many columns.
pub equal_rows_lem :
    (left right : Row)
    → equal_rows left right ≡ true
    → (length left ≡ length right)
      × ((column : String) (value : Option String)
          → lookup column left ≡ some value
          → lookup column right ≡ some value)
unfolding equal_rows
equal_rows_lem left right h = (
  ground arith,
  λ column value found. all_matched_lem left right column value (ground arith) found,
)
