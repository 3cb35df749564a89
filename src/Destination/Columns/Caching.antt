-- ===== src/Destination/Columns/Caching.antt =====
-- The column cache of internal/destination/applier.go: what it leaves alone, and an answer from it.
use pg_live_sync.Prelude.{
  ◌≡◌, refl, ℕ, String, Bool, true, false, eq_refl, some, List, [], ◌∷◌, lookup, insert,
  lookup-insert, arith,
}
use pg_live_sync.Errclass.{Error, Result, ok, err, wrapf}
use pg_live_sync.Action.Keeps.{Keeps}
use pg_live_sync.Destination.Sql.{qualified}
use pg_live_sync.Destination.Database.{Database, ColumnDef}
use pg_live_sync.Destination.Queries.{read_all}
use pg_live_sync.Destination.Columns.{
  column_complaints, World, store_columns, looked_up, table_columns, cached_defs, is_fresh,
  types_of,
}

module _ {D : Database} (P : D.Db → Type 0) where
  store_columns-Keeps :
      (table : String) (answer : Result (List ColumnDef))
      → Keeps (λ (w : World D). P w.db) (store_columns D table answer)
  unfolding store_columns
  store_columns-Keeps table (err e) = record { after = λ w h. h }
  store_columns-Keeps table (ok []) = record { after = λ w h. h }
  store_columns-Keeps table (ok (def ∷ defs)) = record { after = λ w h. h }

  looked_up-Keeps :
      (fresh : Bool) (name : String) → Keeps (λ (w : World D). P w.db) (looked_up D fresh name)
  unfolding looked_up
  looked_up-Keeps true name = record { after = λ w h. h }
  looked_up-Keeps false name = record {
    after = λ w h.
        (store_columns-Keeps name (read_all (column_complaints name) (D.catalog name w.db))).after
          (record w { columns_seen_at = insert name w.now w.columns_seen_at }) h;
  }

  pub table_columns-Keeps :
      (schema table : String) → Keeps (λ (w : World D). P w.db) (table_columns D schema table)
  unfolding table_columns
  table_columns-Keeps schema table = record {
    after = λ w h.
        (looked_up-Keeps (is_fresh (lookup (qualified schema table) w.columns_seen_at) w.now)
            (qualified schema table)).after
          w h;
  }

fresh_now : (now : ℕ) → is_fresh (some now) now ≡ true
unfolding is_fresh
fresh_now now = ground arith

-- A catalog query that fails is cached as well: at the same moment the next call answers without
-- an error, from the columns that were known before the failure, or with no types at all where
-- none were known.
pub table_columns_after_failure :
    (D : Database) (schema table : String) (w : World D) (e : Error)
    → is_fresh (lookup (qualified schema table) w.columns_seen_at) w.now ≡ false
    → D.catalog (qualified schema table) w.db ≡ err e
    → let failure = table_columns D schema table w in
      (failure.0 ≡ err (wrapf "list columns of destination %s: %w" (qualified schema table ∷ []) e))
      × ((table_columns D schema table failure.1).0
          ≡ ok (types_of (cached_defs (lookup (qualified schema table) w.columns_by_table)) []))
unfolding table_columns looked_up store_columns read_all
table_columns_after_failure D schema table w e stale fails =
    rw
      (
        stale,
        fails,
        lookup-insert (qualified schema table) (qualified schema table) w.now w.columns_seen_at,
        eq_refl (qualified schema table),
        fresh_now w.now,
      )
      (refl, refl)
