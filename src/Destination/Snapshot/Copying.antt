-- ===== src/Destination/Snapshot/Copying.antt =====
-- `copyTable`, `publishedTables` and `RunSnapshot` of internal/destination/snapshot.go.
use pg_live_sync.Prelude.{ℕ, suc, ◌+◌, String, Option, List, [], ◌∷◌, is_empty, if◌then◌else◌}
use pg_live_sync.Errclass.{Error, errorf, wrapf, Result, ok, err}
use pg_live_sync.Action.{Action, pure, fail, lift, map_error, ◌>>=◌, ◌>>◌}
use pg_live_sync.Destination.Sql.{qualified}
use pg_live_sync.Destination.Database.{Database}
use pg_live_sync.Destination.Columns.{World}
use pg_live_sync.Destination.Upserts.{LsnParser}
use pg_live_sync.Destination.DeadLetters.{in_tx}
use pg_live_sync.Destination.Queries.{Query, Complaints, read_all, at_end}
use pg_live_sync.Destination.Snapshot.{
  PublishedTable, Scanned, Source, Layout, dotted, common, key_copied, select_sql, fill_row,
  verify_row, key_of, upsert_snapshot_row,
}

abbrev pub of_publication : String → Complaints
of_publication publication = record {
  querying = wrapf "list tables of publication %q: %w" (publication ∷ []);
  scanning = wrapf "scan publication table: %w" [];
  iterating = wrapf "iterate publication tables: %w" [];
}

abbrev pub of_columns : String → Complaints
of_columns table = record {
  querying = wrapf "list columns of destination %s: %w" (table ∷ []);
  scanning = wrapf "scan column of destination %s: %w" (table ∷ []);
  iterating = wrapf "iterate columns of destination %s: %w" (table ∷ []);
}

abbrev pub of_source_columns : String → String → Complaints
of_source_columns schema table = record {
  querying = wrapf "list source columns of %s.%s: %w" (schema ∷ table ∷ []);
  scanning = wrapf "scan source column of %s.%s: %w" (schema ∷ table ∷ []);
  iterating = wrapf "iterate source columns of %s.%s: %w" (schema ∷ table ∷ []);
}

abbrev pub of_key : String → Complaints
of_key table = record {
  querying = wrapf "read primary key of destination %s: %w" (table ∷ []);
  scanning = wrapf "scan primary key of destination %s: %w" (table ∷ []);
  iterating = wrapf "iterate primary key of destination %s: %w" (table ∷ []);
}

-- `destinationPrimaryKey`, from the answer to its query.
unfoldable pub found_key : String → Result (List String) → Result (List String)
found_key table (err e) = err e
found_key table (ok []) = err (
    errorf "destination table %s has no primary key; add one or drop the table before snapshotting"
      (table ∷ []))
found_key table (ok (column ∷ columns)) = ok (column ∷ columns)

module _ (D : Database) (parse_lsn : LsnParser) (source : Source) (layout : Layout D) where
  -- A query on the destination transaction.
  pub asked : {A : Type 0} → Complaints → (D.Db → Query A) → Action (World D) (List A)
  asked complain query w = (read_all complain (query w.db), w)

  unfoldable pub destination_primary_key : String → Action (World D) (List String)
  unfolding found_key asked
  destination_primary_key table w =
      (found_key table (asked (of_key table) (layout.primary_key table) w).0, w)

  module _ (table : PublishedTable) (lsn : String) (time : ℕ) where
    -- One row of the loop.
    unfoldable pub copy_row : List String → List String → List Scanned → Action (World D) Unit
    copy_row columns key values = do
      row ← lift (fill_row columns values [])
      lift (
          map_error (wrapf "snapshot row from %s.%s: %w" (table.schema ∷ table.name ∷ []))
            (verify_row row key))
      upsert_snapshot_row D parse_lsn table.schema table.name row (key_of row key []) lsn time

    unfoldable pub copy_rows :
        List String
        → List String
        → List (Result (List Scanned))
        → Option Error
        → ℕ
        → Action (World D) ℕ
    unfolding copy_row
    copy_rows columns key [] ended count = lift (
        at_end (wrapf "iterate snapshot rows from %s.%s: %w" (table.schema ∷ table.name ∷ [])) count
          ended)
    copy_rows columns key (err e ∷ rows) ended count =
        fail (wrapf "scan snapshot row from %s.%s: %w" (table.schema ∷ table.name ∷ []) e)
    copy_rows columns key (ok values ∷ rows) ended count = do
      copy_row columns key values
      copy_rows columns key rows ended (suc count)

    unfoldable pub copy_selected :
        List String → List String → Query (List Scanned) → Action (World D) ℕ
    unfolding copy_rows
    copy_selected columns key (err e) =
        fail (wrapf "select snapshot rows from %s.%s: %w" (table.schema ∷ table.name ∷ []) e)
    copy_selected columns key (ok rows) = copy_rows columns key rows.scanned rows.ended 0

    -- `copyTable`
    unfoldable pub copy_table : List String → Action (World D) ℕ
    unfolding asked copy_selected
    copy_table key = do
      held ←
          asked (of_columns (dotted table.schema table.name))
            (layout.columns (dotted table.schema table.name))
      present ← lift (
          read_all (of_source_columns table.schema table.name)
            (source.present (qualified table.schema table.name) held))
      let columns = common present held
      lift (key_copied table.schema table.name columns key)
      copy_selected columns key (source.select (select_sql table.schema table.name columns))

  -- The loop of `RunSnapshot` over the tables, with the rows copied so far.
  unfoldable pub copy_tables : String → ℕ → List PublishedTable → ℕ → Action (World D) ℕ
  unfolding destination_primary_key copy_table
  copy_tables lsn time [] total = pure total
  copy_tables lsn time (table ∷ tables) total = do
    key ← destination_primary_key (dotted table.schema table.name)
    count ← copy_table table lsn time key
    copy_tables lsn time tables (total + count)

  -- The destination transaction of the snapshot.
  unfoldable pub load_tables : String → ℕ → List PublishedTable → Action (World D) Unit
  unfolding copy_tables
  load_tables lsn time tables =
      in_tx D "begin destination snapshot transaction: %w"
        "commit destination snapshot transaction: %w" []
        (do total ← copy_tables lsn time tables 0; pure tt)

  -- `RunSnapshot`
  unfoldable pub run_snapshot : String → String → Action (World D) Unit
  unfolding load_tables
  run_snapshot slot publication = do
    lift (map_error (wrapf "connect to source for snapshot: %w" []) source.connect)
    lsn ← lift (
        map_error (wrapf "read replication slot %q consistent point: %w" (slot ∷ []))
          source.restart_lsn)
    tables ← lift (read_all (of_publication publication) source.published)
    if is_empty tables
        then fail (errorf "publication %q publishes no tables" (publication ∷ []))
        else do
          lift (map_error (wrapf "begin source snapshot transaction: %w" []) source.begin_tx)
          time ← lift (map_error (wrapf "read snapshot commit time: %w" []) source.now)
          load_tables lsn time tables
          lift (map_error (wrapf "commit source snapshot transaction: %w" []) source.commit_tx)
