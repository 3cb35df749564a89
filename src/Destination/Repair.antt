-- ===== src/Destination/Repair.antt =====
-- `RepairSchema` and `ensureDestinationType` of internal/destination/applier.go.
pub mod Markers
use pg_live_sync.Prelude.{
  String, str_eq, Bool, true, false, ◌||◌, Option, none, some, List, [], ◌∷◌, ◌++◌, is_empty,
  lookup, keys, join, map, sort_strings, concat, if◌then◌else◌,
}
use pg_live_sync.Errclass.{Error, errorf, wrapf, Result, ok, err}
use pg_live_sync.Action.{Action, pure, fail, lift, map_error, ◌>>=◌, ◌>>◌}
use pg_live_sync.Cdc.{Event}
use pg_live_sync.Destination.Sql.{Types, SqlText, sql, qualified, quote_ident, double_char}
use pg_live_sync.Destination.Database.{Database}
use pg_live_sync.Destination.Columns.{World, table_columns, invalidate_columns}

-- What the source catalog says of a column; `none` is NULL.
pub record SourceColumn : Type 0 where
  pub data_type : Option String
  pub nullable : Bool
  pub default_value : Option String
  pub type_kind : String
  pub type_schema : String
  pub type_name : String

-- The source database, and the statements of a repair on the destination.
pub record Catalog (D : Database) : Type 0 where
  pub connect : Result (Unit {0})
  pub column : String → String → Result (Option SourceColumn)
  -- kind and labels of a type; `none` where the source has no such type
  pub enum : String → String → Result (Option (String × List String))
  pub type_exists : String → String → D.Db → Result Bool
  pub alter : SqlText → D.Db → Result D.Db

unfoldable pub enum_values : List String → String
unfolding double_char
enum_values labels =
    join ", " (map (λ label. concat ("'" ∷ double_char 39 label ∷ "'" ∷ [])) labels)

-- The columns of the event that the destination does not have, of one row.
unfoldable pub missing_of : Types → List String → List String
missing_of types [] = []
missing_of types (column ∷ columns) =
    let rest = missing_of types columns in
    elim (lookup column types) [ none ↦ column ∷ rest | some t ↦ rest ]

-- ALTER TABLE ... ADD COLUMN, with the source's type, nullability and default.
unfoldable pub add_column_sql : String → String → String → Bool → Option String → SqlText
add_column_sql table column data_type nullable default_value =
    sql "ALTER TABLE "
    ∷ sql table
    ∷ sql " ADD COLUMN "
    ∷ sql (quote_ident column)
    ∷ sql " "
    ∷ sql data_type
    ∷ ((if nullable then [] else sql " NOT NULL" ∷ [])
        ++ elim default_value [ none ↦ [] | some value ↦ sql " DEFAULT " ∷ sql value ∷ [] ])

module _ (D : Database) (source : Catalog D) where
  altered : (Error → Error) → Result D.Db → Action (World D) Unit
  altered wrap (ok db) w = (ok tt, record w { db = db })
  altered wrap (err e) w = (err (wrap e), w)

  alter_with : SqlText → (Error → Error) → Action (World D) Unit
  unfolding altered
  alter_with statement wrap w = altered wrap (source.alter statement w.db) w

  enum_labels : String → String → Option (String × List String) → Result (List String)
  enum_labels schema name none =
      err (errorf "source type %s.%s does not exist" (schema ∷ name ∷ []))
  enum_labels schema name (some (kind, labels)) =
      if str_eq kind "e"
      then ok labels
      else err (
          errorf "source type %s.%s is a %s, not an enum; auto-creating it is not supported"
            (schema ∷ name ∷ kind ∷ []))

  create_type : String → String → Bool → Action (World D) Unit
  unfolding alter_with enum_labels enum_values
  create_type schema name true = pure tt
  create_type schema name false = do
    found ← lift (
        map_error (wrapf "read source type %s.%s: %w" (schema ∷ name ∷ []))
          (source.enum schema name))
    labels ← lift (enum_labels schema name found)
    alter_with
        (sql "CREATE TYPE "
          ∷ sql (qualified schema name)
          ∷ sql " AS ENUM ("
          ∷ sql (enum_values labels)
          ∷ sql ")"
          ∷ [])
        (wrapf "auto-create destination enum type %s.%s: %w" (schema ∷ name ∷ []))

  type_checked : String → String → Result Bool → Action (World D) Unit
  unfolding create_type
  type_checked schema name (ok exists) = create_type schema name exists
  type_checked schema name (err e) =
      fail (wrapf "check destination type %s.%s: %w" (schema ∷ name ∷ []) e)

  unfoldable pub ensure_destination_type : String → String → Action (World D) Unit
  unfolding type_checked
  ensure_destination_type schema name w =
      if str_eq schema "" || str_eq name ""
      then (ok tt, w)
      else type_checked schema name (source.type_exists schema name w.db) w

  type_ensured : Bool → Event → String → SourceColumn → Action (World D) Unit
  unfolding ensure_destination_type
  type_ensured false event column found w = (ok tt, w)
  type_ensured true event column found w =
      let (r, w') = ensure_destination_type found.type_schema found.type_name w in
      (map_error (wrapf "column %q on %s.%s: %w" (column ∷ event.schema ∷ event.table ∷ [])) r, w')

  typed : Event → String → Option String → Result String
  typed event column none = err (
      errorf "column %q on the source %s.%s has no type" (column ∷ event.schema ∷ event.table ∷ []))
  typed event column (some data_type) = ok data_type

  described : Event → String → Option SourceColumn → Result SourceColumn
  described event column none = err (
      errorf
        "column %q is also missing on the source %s.%s; it cannot be auto-added, align the schemas manually"
        (column ∷ event.schema ∷ event.table ∷ []))
  described event column (some found) = ok found

  -- One round of the loop over the missing columns.
  unfoldable pub add_column : Event → String → Action (World D) Unit
  unfolding typed described type_ensured alter_with add_column_sql
  add_column event column = do
    let table = qualified event.schema event.table
    answer ← lift (
        map_error (wrapf "read source definition of column %q: %w" (column ∷ []))
          (source.column table column))
    found ← lift (described event column answer)
    data_type ← lift (typed event column found.data_type)
    type_ensured (str_eq found.type_kind "e") event column found
    alter_with (add_column_sql table column data_type found.nullable found.default_value) (
        wrapf "auto-apply column %q on the destination %s.%s: %w"
          (column ∷ event.schema ∷ event.table ∷ []))

  unfoldable pub add_columns : Event → List String → Action (World D) Unit
  unfolding add_column
  add_columns event [] = pure tt
  add_columns event (column ∷ columns) = do add_column event column; add_columns event columns

  -- `RepairSchema`: true where columns were added.
  unfoldable pub repair_schema : Event → Action (World D) Bool
  unfolding add_columns missing_of
  repair_schema event = do
    types ← table_columns D event.schema event.table
    let missing =
        sort_strings (missing_of types (keys event.after) ++ missing_of types (keys event.key))
    if is_empty missing then pure false else do
      lift (map_error (wrapf "connect to source for schema repair: %w" []) source.connect)
      add_columns event missing
      λ (w : World D). (ok true, invalidate_columns D event.schema event.table w)
