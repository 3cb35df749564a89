-- ===== src/Destination/Snapshot.antt =====
-- The copy of the published tables of internal/destination/snapshot.go: `RunSnapshot` and what it
-- calls, with `UpsertSnapshotRow` of internal/destination/applier.go.
pub mod Copying
pub mod Boot
pub mod Loading
pub mod Tables
pub mod Runs
use pg_live_sync.Prelude.{
  ℕ, suc, ◌+◌, String, Bool, true, false, Option, none, some, List, [], ◌∷◌, ◌++◌, is_empty,
  contains_string, lookup, insert, join, concat, map, if◌then◌else◌,
}
use pg_live_sync.Errclass.{
  Error, errorf, wrapf, shownf, permanent_error, permanentf, Result, ok, err,
}
use pg_live_sync.Action.{Action, pure, fail, lift, map_error, ◌>>=◌, ◌>>◌}
use pg_live_sync.Cdc.{Row}
use pg_live_sync.Destination.Sql.{Types, qualified, quote_ident}
use pg_live_sync.Destination.Rows.{Param, verify_ident, transcode_row, append_numbered}
use pg_live_sync.Destination.Database.{Database, upsert}
use pg_live_sync.Destination.Columns.{World, table_columns}
use pg_live_sync.Destination.Apply.{exec_with_poison}
use pg_live_sync.Destination.Upserts.{LsnParser}
use pg_live_sync.Destination.Queries.{Query, Rows, Complaints, read_all, at_end}

pub record PublishedTable : Type 0 where
  pub schema : String
  pub name : String

-- A value of rows.Values(): an untyped nil, a *string, a string, or what fmt.Sprint prints.
pub data Scanned : Type 0 where
  nil_value : Scanned
  string_pointer : Option String → Scanned
  string_value : String → Scanned
  printed : String → Scanned

unfoldable pub text_pointer : Scanned → Option String
text_pointer nil_value = none
text_pointer (string_pointer text) = text
text_pointer (string_value text) = some text
text_pointer (printed text) = some text

-- The source, as its replication slot, its catalog and one transaction on it answer.
pub record Source : Type 0 where
  pub connect : Result (Unit {0})
  pub restart_lsn : Result String
  pub published : Query PublishedTable
  pub begin_tx : Result (Unit {0})
  -- SELECT now(), in milliseconds
  pub now : Result ℕ
  -- those of the given columns of a table, named by its quoted name, that the source has
  pub present : String → List String → Query String
  pub select : String → Query (List Scanned)
  pub commit_tx : Result (Unit {0})

-- The destination's catalog; a table is named `schema.name`, without quotes.
pub record Layout (D : Database) : Type 0 where
  pub columns : String → D.Db → Query String
  pub primary_key : String → D.Db → Query String

-- schema + "." + name
abbrev pub dotted : String → String → String
dotted schema name = concat (schema ∷ "." ∷ name ∷ [])

-- The columns of the destination that the source has, in the destination's order.
unfoldable pub common : List String → List String → List String
common present [] = []
common present (column ∷ columns) =
    let rest = common present columns in
    if contains_string present column then column ∷ rest else rest

unfoldable pub key_copied : String → String → List String → List String → Result (Unit {0})
key_copied schema table columns [] = ok tt
key_copied schema table columns (column ∷ key) =
    let rest = key_copied schema table columns key in
    if contains_string columns column
    then rest
    else err (
        errorf
          "destination primary-key column %q of %s.%s is missing on the source; align the schemas before snapshotting"
          (column ∷ schema ∷ table ∷ []))

unfoldable pub select_sql : String → String → List String → String
unfolding qualified
select_sql schema table columns = concat (
    "SELECT "
    ∷ join ", " (map (λ column. concat (quote_ident column ∷ "::text" ∷ [])) columns)
    ∷ " FROM "
    ∷ qualified schema table
    ∷ [])

-- row[column] = textPointer(values[index]); an index that is out of range panics.
unfoldable pub fill_row : List String → List Scanned → Row → Result Row
unfolding text_pointer
fill_row [] values row = ok row
fill_row (column ∷ columns) [] row = err (errorf "runtime error: index out of range" [])
fill_row (column ∷ columns) (value ∷ values) row =
    fill_row columns values (insert column (text_pointer value) row)

-- verifyRowAgainstPrimaryKey
key_missing : String → Error
key_missing column = errorf "primary-key column %q is missing or NULL" (column ∷ [])

present_value : String → Option (Option String) → Result (Unit {0})
unfolding key_missing
present_value column (some (some text)) = ok tt
present_value column _ = err (key_missing column)

also : Result (Unit {0}) → Result (Unit {0}) → Result (Unit {0})
also (ok _) rest = rest
also (err e) rest = err e

unfoldable pub verify_row : Row → List String → Result (Unit {0})
unfolding present_value also
verify_row row [] = ok tt
verify_row row (column ∷ key) = also (present_value column (lookup column row)) (verify_row row key)

-- key[column] = row[column]
unfoldable pub key_of : Row → List String → Row → Row
key_of row [] key = key
key_of row (column ∷ columns) key =
    key_of row columns
      (insert column (elim (lookup column row) [ none ↦ none | some value ↦ value ]) key)

abbrev pub snapshot_error : String → String → Error → Error
snapshot_error schema table e =
    permanent_error (shownf "snapshot row %s.%s: %v" (schema ∷ table ∷ []) e)

unfoldable pub key_in_row : String → String → List String → List String → Result (Unit {0})
key_in_row schema table columns [] = ok tt
key_in_row schema table columns (column ∷ key) =
    let rest = key_in_row schema table columns key in
    if contains_string columns column
    then rest
    else err (
        permanentf "snapshot row %s.%s: primary-key column %q is absent from the row"
          (schema ∷ table ∷ column ∷ []))

module _ (D : Database) (parse_lsn : LsnParser) where
  -- `UpsertSnapshotRow`
  unfoldable pub upsert_snapshot_row :
      String → String → Row → Row → String → ℕ → Action (World D) Unit
  unfolding key_in_row
  upsert_snapshot_row schema table after key lsn time = do
    lift (map_error (snapshot_error schema table) (verify_ident schema))
    lift (map_error (snapshot_error schema table) (verify_ident table))
    row ← lift (map_error (snapshot_error schema table) (transcode_row after))
    key_row ← lift (map_error (snapshot_error schema table) (transcode_row key))
    lift (key_in_row schema table row.0 key_row.0)
    types ← table_columns D schema table
    exec_with_poison D parse_lsn (upsert (qualified schema table) row.0 key_row.0 types)
        (append_numbered row.1 lsn time)
        (concat ("snapshot upsert on " ∷ schema ∷ "." ∷ table ∷ []))
