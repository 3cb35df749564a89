-- ===== src/Source/Tuple.antt =====
-- `decodeTuple`, `primaryKey` and `equalRows` of internal/source/decoder.go.
pub mod Accounts
pub mod Keys
use pg_live_sync.Prelude.{
  ◌%◌, ◌==◌, String, str_eq, Bool, true, false, not, ◌&&◌, Option, none, some, List, [], ◌∷◌, ◌++◌,
  length, is_empty, lookup, insert, itoa, if◌then◌else◌,
}
use pg_live_sync.Errclass.{errorf, Result, ok, err, ◌>>=◌}
use pg_live_sync.Cdc.{Row}
use pg_live_sync.Source.Messages.{Column, Relation, Tuple, TupleColumn}

-- column.Flags & 1 != 0
abbrev pub is_key : Column → Bool
is_key column = column.flags % 2 == 1

-- `fill[column.Name]`, where it is there and not nil
abbrev pub filled : Row → String → Option String
filled fill name = elim (lookup name fill) [ none ↦ none | some value ↦ value ]

unchanged_value : Option String → Column → Row → List String → Row × List String
unchanged_value (some value) column row unchanged = (insert column.name (some value) row, unchanged)
unchanged_value none column row unchanged = (row, unchanged ++ column.name ∷ [])

-- The body of the loop: one column, its value, and what has been decoded so far.
unfoldable pub decode_value :
    Bool → Row → Column → TupleColumn → Row → List String → Result (Row × List String)
unfolding unchanged_value
decode_value key_only fill column value row unchanged =
    if key_only && not (is_key column)
    then ok (row, unchanged)
    else if value.data_type == b'n'
    then ok (insert column.name none row, unchanged)
    else if value.data_type == b't'
    then ok (insert column.name (some value.text) row, unchanged)
    else if value.data_type == b'u'
    then if key_only
      then err
          (errorf "primary-key column %q cannot be an unchanged TOAST value" (column.name ∷ []))
      else ok (unchanged_value (filled fill column.name) column row unchanged)
    else if value.data_type == b'b'
    then err (errorf "binary column %q is not supported" (column.name ∷ []))
    else err
        (errorf "column %q has unknown tuple type %q" (column.name ∷ itoa value.data_type ∷ []))

unfoldable pub decode_columns :
    Bool → Row → List Column → List TupleColumn → Row → List String → Result (Row × List String)
decode_columns key_only fill (column ∷ columns) (value ∷ values) row unchanged =
    decode_value key_only fill column value row unchanged >>= λ decoded.
    decode_columns key_only fill columns values decoded.0 decoded.1
decode_columns key_only fill _ _ row unchanged = ok (row, unchanged)

unfoldable pub decode_tuple : Relation → Tuple → Bool → Row → Result (Row × List String)
decode_tuple relation none key_only fill = err (errorf "tuple is missing" [])
decode_tuple relation (some columns) key_only fill =
    if length columns == length relation.columns
    then decode_columns key_only fill relation.columns columns [] []
    else err (
        errorf "tuple has %d columns, relation metadata has %d"
          (itoa (length columns) ∷ itoa (length relation.columns) ∷ []))

unfoldable pub flagged_columns : List Column → List String
flagged_columns [] = []
flagged_columns (column ∷ columns) =
    let rest = flagged_columns columns in if is_key column then column.name ∷ rest else rest

-- The catalog's columns, or the flags of pgoutput where the catalog gave none.
unfoldable pub key_columns : Option (List String) → Relation → List String
unfolding flagged_columns
key_columns (some (column ∷ columns)) relation = column ∷ columns
key_columns _ relation = flagged_columns relation.columns

key_value : String → Option (Option String) → Result String
key_value column none = err (errorf "primary-key column %q is missing" (column ∷ []))
key_value column (some none) = err (errorf "primary-key column %q is NULL" (column ∷ []))
key_value column (some (some value)) = ok value

unfoldable pub collect_key : List String → Row → Row → Result Row
unfolding key_value
collect_key [] row key = ok key
collect_key (column ∷ columns) row key = key_value column (lookup column row) >>= λ value.
    collect_key columns row (insert column (some value) key)

unfoldable pub primary_key : Option (List String) → Relation → Row → Result Row
primary_key catalog relation row = collect_key (key_columns catalog relation) row [] >>= λ key.
    if is_empty key
    then err
        (errorf "table %s.%s has no primary key" (relation.namespace ∷ relation.relation_name ∷ []))
    else ok key

unfoldable pub equal_values : Option String → Option String → Bool
equal_values (some left) (some right) = str_eq left right
equal_values none none = true
equal_values _ _ = false

matches : Option String → Option (Option String) → Bool
matches left none = false
matches left (some right) = equal_values left right

unfoldable pub all_matched : Row → Row → Bool
unfolding matches
all_matched [] right = true
all_matched ((column, value) ∷ left) right =
    matches value (lookup column right) && all_matched left right

unfoldable pub equal_rows : Row → Row → Bool
equal_rows left right = length left == length right && all_matched left right

old_value : Relation → String → Option (Option String) → Result String
old_value relation column (some (some value)) = ok value
old_value relation column _ = err (
    errorf
      "unchanged TOAST column %q has no old image while changing the key of %s.%s; set REPLICA IDENTITY FULL"
      (column ∷ relation.namespace ∷ relation.relation_name ∷ []))

-- Unchanged TOAST columns of a row whose key changes are filled from the old image.
unfoldable pub fill_unchanged : Relation → Row → List String → Row → Result Row
unfolding old_value
fill_unchanged relation old_row [] after = ok after
fill_unchanged relation old_row (column ∷ columns) after =
    old_value relation column (lookup column old_row) >>= λ value.
    fill_unchanged relation old_row columns (insert column (some value) after)
