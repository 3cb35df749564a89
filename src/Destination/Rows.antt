-- ===== src/Destination/Rows.antt =====
-- `verifyIdent`, `verifyColumns`, `transcodeRow` and the error helpers of
-- internal/destination/applier.go.
use pg_live_sync.Prelude.{
  ◌≡◌, ℕ, String, str_eq, Bool, false, ◌||◌, Option, none, some, List, [], ◌∷◌, ◌++◌, is_empty,
  lookup, keys, sort_strings, map, if◌then◌else◌, arith,
}
use pg_live_sync.Errclass.{
  Error, errorf, wrapf, shownf, permanent_error, Result, ok, err, pg_code, ◌>>◌,
}
use pg_live_sync.Cdc.{Row, Event, Operation}
use pg_live_sync.Destination.Sql.{is_ident}

-- A parameter of a statement.
pub data Param : Type 0 where
  text : Option String → Param
  lsn : String → Param
  time : ℕ → Param
  -- text of a row or of a list of names, as JSON
  json_row : Row → Param
  json_names : List String → Param
  operation : Operation → Param
  reason : Error → Param

unfoldable pub verify_ident : String → Result (Unit {0})
unfolding is_ident
verify_ident name =
    if is_ident name
    then ok tt
    else err (errorf "identifier %q is not a simple [A-Za-z_][A-Za-z0-9_]* name" (name ∷ []))

-- reservedColumns
unfoldable pub is_reserved : String → Bool
is_reserved column =
    str_eq column "source_lsn"
    || str_eq column "source_commit_time"
    || str_eq column "replicated_at"

abbrev pub reserved_error : String → Error
reserved_error column = errorf "column %q collides with a reserved pipeline column" (column ∷ [])

none_reserved : List String → Result (Unit {0})
unfolding is_reserved
none_reserved [] = ok tt
none_reserved (column ∷ columns) =
    let rest = none_reserved columns in
    if is_reserved column then err (reserved_error column) else rest

unfoldable pub verify_columns : Event → Result (Unit {0})
unfolding none_reserved
verify_columns event = none_reserved (keys event.after) >> none_reserved (keys event.key)

-- The loop of `transcodeRow` over the columns of the row.
check_columns : List String → Result (Unit {0})
unfolding is_reserved verify_ident
check_columns [] = ok tt
check_columns (column ∷ columns) =
    let rest = check_columns columns in
    verify_ident column >> (if is_reserved column then err (reserved_error column) else rest)

-- row[column]
abbrev pub value_of : Row → String → Param
value_of row column = text (elim (lookup column row) [ none ↦ none | some value ↦ value ])

unfoldable pub transcode_row : Row → Result (List String × List Param)
unfolding check_columns
transcode_row row =
    if is_empty row
    then err (errorf "row has no columns" [])
    else check_columns (keys row)
      >> (let columns = sort_strings (keys row) in ok (columns, map (value_of row) columns))

pub transcode_row_lem :
    (row : Row) (r : List String × List Param)
    → transcode_row row ≡ ok r
    → map (value_of row) r.0 ≡ r.1
unfolding transcode_row
transcode_row_lem row r h = ground arith

unfoldable pub append_numbered : List Param → String → ℕ → List Param
append_numbered values commit_lsn commit_time = values ++ (lsn commit_lsn ∷ time commit_time ∷ [])

-- permanent("event %s: %v", event.ID, err)
abbrev pub permanent_event : String → Error → Error
permanent_event id e = permanent_error (shownf "event %s: %v" (id ∷ []) e)

-- poisonOrWrap: what the server refused is permanent, all else stays transient.
unfoldable pub poison_or_wrap : Error → String → Error
poison_or_wrap e description = elim (pg_code e) [
  | none ↦ wrapf "%s: %w" (description ∷ []) e
  | some code ↦ permanent_error (wrapf "%s: %w" (description ∷ []) e)
]

-- IsUndefinedColumn: SQLSTATE 42703.
unfoldable pub is_undefined_column : Error → Bool
is_undefined_column e = elim (pg_code e) [ none ↦ false | some code ↦ str_eq code "42703" ]
