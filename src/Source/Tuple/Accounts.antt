-- ===== src/Source/Tuple/Accounts.antt =====
-- What `decodeTuple` of internal/source/decoder.go makes of each column.
use pg_live_sync.Prelude.{
  ◌==◌, ◌≡◌, inl, inr, Bool-cases, String, str_eq, eq_iff, Bool, true, false, ◌||◌, Option, none,
  some, List, [], ◌∷◌, ◌++◌, arith, length, All, lookup, lookup-insert, contains_string,
}
use pg_live_sync.Errclass.{ok, >>=-eq-ok}
use pg_live_sync.Cdc.{Row}
use pg_live_sync.Source.Messages.{Column, Relation, Tuple, TupleColumn}
use pg_live_sync.Source.Tuple.{decode_value, decode_columns, decode_tuple, filled}

abbrev pub is_some {ℓ} : {A : Type ℓ} → Option A → Bool
is_some none = false
is_some (some x) = true

-- A column is in the row, with a value or NULL, or it is reported as unchanged.
abbrev pub IsAccounted : Row → List String → Column → Type 0
IsAccounted row unchanged column =
    (is_some (lookup column.name row) || contains_string unchanged column.name) ≡ true

contains-append :
    (xs : List String) (x y : String)
    → contains_string (xs ++ x ∷ []) y ≡ (contains_string xs y || str_eq x y)
unfolding contains_string
contains-append [] x y = ground arith
contains-append (z ∷ xs) x y = ground (arith, contains-append xs x y)

-- One step accounts for its column, and for all that was accounted for.
decode_value-IsAccounted :
    (fill : Row) (column : Column) (value : TupleColumn) (row : Row) (unchanged : List String)
    {r : Row × List String}
    → decode_value false fill column value row unchanged ≡ ok r
    → IsAccounted r.0 r.1 column
unfolding decode_value
decode_value-IsAccounted fill column value row unchanged h = ground (
  arith,
  (eq_iff column.name column.name),
  lookup-insert column.name column.name none row,
  lookup-insert column.name column.name (some value.text) row,
  lookup-insert column.name column.name (filled fill column.name) row,
  contains-append unchanged column.name column.name,
)

decode_value_keeps :
    (fill : Row) (column other : Column) (value : TupleColumn) (row : Row) (unchanged : List String)
    {r : Row × List String}
    → decode_value false fill column value row unchanged ≡ ok r
    → IsAccounted row unchanged other
    → IsAccounted r.0 r.1 other
unfolding decode_value
decode_value_keeps fill column other value row unchanged h = ground (
  arith,
  lookup-insert column.name other.name none row,
  lookup-insert column.name other.name (some value.text) row,
  lookup-insert column.name other.name (filled fill column.name) row,
  contains-append unchanged column.name other.name,
)

decode_columns_keeps :
    (fill : Row) (columns : List Column) (values : List TupleColumn) (row : Row)
    (unchanged : List String) {r : Row × List String} (other : Column)
    → decode_columns false fill columns values row unchanged ≡ ok r
    → IsAccounted row unchanged other
    → IsAccounted r.0 r.1 other
unfolding decode_columns
decode_columns_keeps fill [] values row unchanged other h k = cc
decode_columns_keeps fill (c ∷ cs) [] row unchanged other h k = cc
decode_columns_keeps fill (c ∷ cs) (v ∷ vs) row unchanged other h k =
    let (step, done, more) = >>=-eq-ok (decode_value false fill c v row unchanged) _ h in
    decode_columns_keeps fill cs vs step.0 step.1 other more
      (decode_value_keeps fill c other v row unchanged done k)

decode_columns-IsAccounted :
    (fill : Row) (columns : List Column) (values : List TupleColumn) (row : Row)
    (unchanged : List String) {r : Row × List String}
    → length values ≡ length columns
    → decode_columns false fill columns values row unchanged ≡ ok r
    → All (IsAccounted r.0 r.1) columns
unfolding decode_columns
decode_columns-IsAccounted fill [] values row unchanged same h = tt
decode_columns-IsAccounted fill (c ∷ cs) [] row unchanged same h = absurd (omega arith)
decode_columns-IsAccounted fill (c ∷ cs) (v ∷ vs) row unchanged same h =
    let (step, done, more) = >>=-eq-ok (decode_value false fill c v row unchanged) _ h in
    (
      decode_columns_keeps fill cs vs step.0 step.1 c more
          (decode_value-IsAccounted fill c v row unchanged done),
      decode_columns-IsAccounted fill cs vs step.0 step.1 (omega arith) more,
    )

-- A tuple that is decoded whole (not for its key only) loses no column: each column of the relation
-- is in the row, with a value or NULL, or it is reported as unchanged.
pub decode_tuple-IsAccounted :
    (relation : Relation) (tuple : Tuple) (fill row : Row) (unchanged : List String)
    → decode_tuple relation tuple false fill ≡ ok (row, unchanged)
    → All (IsAccounted row unchanged) relation.columns
unfolding decode_tuple
decode_tuple-IsAccounted relation none fill row unchanged h = cc
decode_tuple-IsAccounted relation (some values) fill row unchanged h =
    elim (Bool-cases (length values == length relation.columns)) [
      | inl same ↦
          decode_columns-IsAccounted fill relation.columns values [] [] (ground arith)
            (rw same at h)
      | inr other ↦ absurd (ground arith)
    ]
