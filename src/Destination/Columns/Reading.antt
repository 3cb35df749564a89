-- ===== src/Destination/Columns/Reading.antt =====
-- `tableColumns` of internal/destination/applier.go reads the catalog and nothing else of the
-- database, and writes only the cache.
use pg_live_sync.Prelude.{
  ◌≡◌, sym, ap, ◌∙◌, String, Bool, true, false, List, [], ◌∷◌, lookup, insert,
}
use pg_live_sync.Errclass.{Result, ok, err}
use pg_live_sync.Action.Runs.{Runs}
use pg_live_sync.Destination.Sql.{Types, qualified}
use pg_live_sync.Destination.Database.{Database, ColumnDef}
use pg_live_sync.Destination.Queries.{read_all}
use pg_live_sync.Destination.Columns.{
  column_complaints, World, store_columns, looked_up, is_fresh, table_columns,
}

module _ (D : Database) where
  -- The same lookup with other contents of the database.
  abbrev with_db : World D → D.Db → World D
  with_db w db = record w { db = db }

  stored :
      (table : String) (answer : Result (List ColumnDef)) (w : World D) (db : D.Db) {types : Types}
      {w' : World D}
      → Runs (store_columns D table answer) w types w'
      → (w'.db ≡ w.db) × Runs (store_columns D table answer) (with_db w db) types (with_db w' db)
  unfolding store_columns
  stored table (err e) w db h = cc
  stored table (ok []) w db h =
      (ap (λ (p : Result Types × World D). p.1.db) (sym h), λ i. ((h i).0, with_db (h i).1 db))
  stored table (ok (def ∷ defs)) w db h =
      (ap (λ (p : Result Types × World D). p.1.db) (sym h), λ i. ((h i).0, with_db (h i).1 db))

  looked :
      (fresh : Bool) (name : String) (w : World D) (db : D.Db) {types : Types} {w' : World D}
      → D.catalog name db ≡ D.catalog name w.db
      → Runs (looked_up D fresh name) w types w'
      → (w'.db ≡ w.db) × Runs (looked_up D fresh name) (with_db w db) types (with_db w' db)
  unfolding looked_up
  looked true name w db same h =
      (ap (λ (p : Result Types × World D). p.1.db) (sym h), λ i. ((h i).0, with_db (h i).1 db))
  looked false name w db same h =
      let seen = record w { columns_seen_at = insert name w.now w.columns_seen_at } in
      let (kept, again) =
        stored name (read_all (column_complaints name) (D.catalog name w.db)) seen db h in
      (
        kept,
        ap
              (λ answer.
                store_columns D name (read_all (column_complaints name) answer) (with_db seen db))
              same
            ∙ again,
      )

  -- A lookup leaves the database alone, and gives the same with other contents that have the same
  -- catalog.
  pub table_columns-with_db :
      (schema table : String) (w : World D) (db : D.Db) {types : Types} {w' : World D}
      → ((name : String) → D.catalog name db ≡ D.catalog name w.db)
      → Runs (table_columns D schema table) w types w'
      → (w'.db ≡ w.db)
        × Runs (table_columns D schema table) (record w { db = db }) types (record w' { db = db })
  unfolding table_columns
  table_columns-with_db schema table w db same h =
      looked (is_fresh (lookup (qualified schema table) w.columns_seen_at) w.now)
        (qualified schema table) w db (same (qualified schema table)) h
