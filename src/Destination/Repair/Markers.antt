-- ===== src/Destination/Repair/Markers.antt =====
-- `RepairSchema` (internal/destination/applier.go) leaves the markers alone.
use pg_live_sync.Prelude.{
  ◌≡◌, refl, String, str_eq, Bool, true, false, ◌||◌, List, [], ◌∷◌, if◌then◌else◌,
}
use pg_live_sync.Errclass.{Error, Result, ok, err}
use pg_live_sync.Action.{Action, pure}
use pg_live_sync.Action.Keeps.{Keeps, Keeps-bind, Keeps-pure, keeps_rules}
use pg_live_sync.Cdc.{Event}
use pg_live_sync.Destination.Sql.{SqlText}
use pg_live_sync.Destination.Database.{Database}
use pg_live_sync.Destination.Database.Laws.{Laws}
use pg_live_sync.Destination.Columns.{World, invalidate_columns}
use pg_live_sync.Destination.Upserts.{LsnParser}
use pg_live_sync.Destination.Apply.Markers.{IsMarked, columns-IsMarked}
use pg_live_sync.Destination.Repair.{
  Catalog, SourceColumn, altered, alter_with, create_type, type_checked, ensure_destination_type,
  type_ensured, add_column, add_columns, repair_schema,
}

-- A change of the schema, ALTER TABLE or CREATE TYPE, deletes no marker.
pub record KeepsMarkers {D : Database} (source : Catalog D) : Type 0 where
  pub keeps :
      (statement : SqlText) (id : String) (db : D.Db) {db' : D.Db}
      → source.alter statement db ≡ ok db'
      → D.is_marked db id ≡ true
      → D.is_marked db' id ≡ true

module _ {D : Database} (laws : Laws D) (parse_lsn : LsnParser) {source : Catalog D}
    (alters : KeepsMarkers source) (id : String) where
  altered-IsMarked :
      (statement : SqlText) (wrap : Error → Error) (answer : Result D.Db) (w : World D)
      → source.alter statement w.db ≡ answer
      → IsMarked D id w
      → IsMarked D id (altered D source wrap answer w).1
  unfolding altered
  altered-IsMarked statement wrap (ok db) w at h = alters.keeps statement id w.db at h
  altered-IsMarked statement wrap (err e) w at h = h

  alter-IsMarked :
      (statement : SqlText) (wrap : Error → Error)
      → Keeps (IsMarked D id) (alter_with D source statement wrap)
  unfolding alter_with
  alter-IsMarked statement wrap = record {
    after = λ w h. altered-IsMarked statement wrap _ w refl h;
  }

  create_type-IsMarked :
      (schema name : String) (exists : Bool)
      → Keeps (IsMarked D id) (create_type D source schema name exists)
  unfolding create_type
  create_type-IsMarked schema name true = search keeps_rules
  create_type-IsMarked schema name false = search (keeps_rules, alter-IsMarked)

  checked-IsMarked :
      (schema name : String) (answer : Result Bool)
      → Keeps (IsMarked D id) (type_checked D source schema name answer)
  unfolding type_checked
  checked-IsMarked schema name (ok exists) = create_type-IsMarked schema name exists
  checked-IsMarked schema name (err e) = search keeps_rules

  either-IsMarked :
      (b : Bool) (m n : Action (World D) Unit)
      → Keeps (IsMarked D id) m
      → Keeps (IsMarked D id) n
      → Keeps (IsMarked D id) (λ w. if b then m w else n w)
  either-IsMarked true m n k l = k
  either-IsMarked false m n k l = l

  checking-IsMarked :
      (schema name : String)
      → Keeps (IsMarked D id) (λ (w : World D).
        type_checked D source schema name (source.type_exists schema name w.db) w)
  checking-IsMarked schema name = record {
    after = λ w h. (checked-IsMarked schema name (source.type_exists schema name w.db)).after w h;
  }

  ensure-IsMarked :
      (schema name : String) → Keeps (IsMarked D id) (ensure_destination_type D source schema name)
  unfolding ensure_destination_type
  ensure-IsMarked schema name =
      either-IsMarked (str_eq schema "" || str_eq name "") (pure tt) _ (Keeps-pure tt)
        (checking-IsMarked schema name)

  ensured-IsMarked :
      (is_enum : Bool) (event : Event) (column : String) (found : SourceColumn)
      → Keeps (IsMarked D id) (type_ensured D source is_enum event column found)
  unfolding type_ensured
  ensured-IsMarked false event column found = record { after = λ w h. h }
  ensured-IsMarked true event column found = record {
    after = λ w h. (ensure-IsMarked found.type_schema found.type_name).after w h;
  }

  add_column-IsMarked :
      (event : Event) (column : String) → Keeps (IsMarked D id) (add_column D source event column)
  unfolding add_column
  add_column-IsMarked event column = search (keeps_rules, alter-IsMarked, ensured-IsMarked)

  add_columns-IsMarked :
      (event : Event) (columns : List String)
      → Keeps (IsMarked D id) (add_columns D source event columns)
  unfolding add_columns
  add_columns-IsMarked event [] = Keeps-pure tt
  add_columns-IsMarked event (column ∷ columns) =
      Keeps-bind (add_column D source event column) _ (add_column-IsMarked event column)
        (λ _. add_columns-IsMarked event columns)

  invalidate-IsMarked :
      (event : Event)
      → Keeps
          (IsMarked D id)
          (λ (w : World D). (ok true, invalidate_columns D event.schema event.table w))
  unfolding invalidate_columns
  invalidate-IsMarked event = record { after = λ w h. h }

  pub repair-IsMarked : (event : Event) → Keeps (IsMarked D id) (repair_schema D source event)
  unfolding repair_schema
  repair-IsMarked event =
      search
        (keeps_rules, laws, parse_lsn, columns-IsMarked, add_columns-IsMarked, invalidate-IsMarked)
