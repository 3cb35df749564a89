-- ===== src/Destination/Columns.antt =====
-- `tableColumns` and `invalidateColumns` of internal/destination/applier.go: the cache of a
-- destination table's column types. The applier is passed with the database that it is connected to.
pub mod Caching
pub mod Reading
use pg_live_sync.Prelude.{
  ℕ, ◌-◌, ◌*◌, ltb, String, Bool, true, false, Option, none, some, List, [], ◌∷◌, is_empty, lookup,
  insert, delete, if◌then◌else◌,
}
use pg_live_sync.Errclass.{Error, wrapf, Result, ok, err}
use pg_live_sync.Action.{Action}
use pg_live_sync.Destination.Sql.{Types, qualified}
use pg_live_sync.Destination.Database.{Database, ColumnDef}
use pg_live_sync.Destination.Queries.{Complaints, read_all}

-- The Applier and what it is connected to. Times are milliseconds.
pub record World (D : Database) : Type 0 where
  pub db : D.Db
  pub columns_seen_at : List (String × ℕ)
  pub columns_by_table : List (String × List ColumnDef)
  pub now : ℕ

-- columnCacheTTL, two minutes
abbrev pub column_cache_ttl : ℕ
column_cache_ttl = 2 * 60 * 1000

unfoldable pub types_of : List ColumnDef → Types → Types
types_of [] types = types
types_of (def ∷ defs) types = types_of defs (insert def.name def.data_type types)

-- columnsByTable[qualified]: nil where the map has no such key.
abbrev pub cached_defs : Option (List ColumnDef) → List ColumnDef
cached_defs none = []
cached_defs (some defs) = defs

unfoldable pub is_fresh : Option ℕ → ℕ → Bool
is_fresh none now = false
is_fresh (some fetched) now = ltb (now - fetched) column_cache_ttl

abbrev pub column_complaints : String → Complaints
column_complaints table = record {
  querying = wrapf "list columns of destination %s: %w" (table ∷ []);
  scanning = wrapf "scan column of destination %s: %w" (table ∷ []);
  iterating = wrapf "iterate columns of destination %s: %w" (table ∷ []);
}

module _ (D : Database) where
  -- What the query's answer does to the cache.
  store_columns : String → Result (List ColumnDef) → Action (World D) Types
  unfolding types_of
  store_columns table (err e) w = (err e, w)
  store_columns table (ok defs) w = (
    ok (types_of defs []),
    (if is_empty defs
        then record w { columns_seen_at = delete table w.columns_seen_at }
        else record w { columns_by_table = insert table defs w.columns_by_table }),
  )

  looked_up : Bool → String → Action (World D) Types
  unfolding types_of store_columns read_all
  looked_up true name w = (ok (types_of (cached_defs (lookup name w.columns_by_table)) []), w)
  looked_up false name w =
      store_columns name (read_all (column_complaints name) (D.catalog name w.db))
        (record w { columns_seen_at = insert name w.now w.columns_seen_at })

  unfoldable pub table_columns : String → String → Action (World D) Types
  unfolding is_fresh looked_up
  table_columns schema table w =
      let name = qualified schema table in
      looked_up (is_fresh (lookup name w.columns_seen_at) w.now) name w

  unfoldable pub invalidate_columns : String → String → World D → World D
  invalidate_columns schema table w = record w {
    columns_seen_at = delete (qualified schema table) w.columns_seen_at;
    columns_by_table = delete (qualified schema table) w.columns_by_table;
  }
