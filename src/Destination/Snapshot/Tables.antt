-- ===== src/Destination/Snapshot/Tables.antt =====
-- What a snapshot has to write to each published table, and that the destination transaction of
-- `RunSnapshot` (internal/destination/snapshot.go) writes it.
use pg_live_sync.Prelude.{
  ℕ, ◌+◌, ◌≡◌, refl, sym, ap, arith, String, true, false, List, [], ◌∷◌, contains_string, All,
  is_empty, ◌⊎◌,
}
use pg_live_sync.Errclass.{Error, Result, ok, err, ok-injective}
use pg_live_sync.Action.{pure, ◌>>=◌}
use pg_live_sync.Action.Ends.{Ends, Ends-bind, Ends-check, Ends-fail, Ends-lift, Ends-weaken}
use pg_live_sync.Destination.Sql.{qualified}
use pg_live_sync.Destination.Database.{Database}
use pg_live_sync.Destination.Database.Laws.{Laws}
use pg_live_sync.Destination.Columns.{World}
use pg_live_sync.Destination.Upserts.{LsnParser}
use pg_live_sync.Destination.DeadLetters.Transactions.{in_tx-Ends, in_tx_failed}
use pg_live_sync.Destination.Queries.{Query, full, read_all, read_all-eq-ok}
use pg_live_sync.Destination.Snapshot.{
  PublishedTable, Scanned, Source, Layout, dotted, common, key_copied, select_sql,
}
use pg_live_sync.Destination.Snapshot.Copying.{
  of_columns, of_source_columns, found_key, asked, destination_primary_key, copy_selected,
  copy_table, copy_tables, load_tables,
}
use pg_live_sync.Destination.Snapshot.Loading.{RowsLoaded, rows-Ends}

module _ {D : Database} (source : Source) (layout : Layout D) (lsn : String) (time : ℕ) where
  -- The table's primary key is not empty, its columns are among those that are copied, and each
  -- row that the source selects is loaded.
  abbrev pub TableLoaded : PublishedTable → D.Db → D.Db → Type 0
  TableLoaded table before after =
      let name = dotted table.schema table.name in
      (key : List String) × (held : List String) × (present : List String) × (rows : List
        (List Scanned))
      × (layout.primary_key name before ≡ full key)
      × (is_empty key ≡ false)
      × (layout.columns name before ≡ full held)
      × (source.present (qualified table.schema table.name) held ≡ full present)
      × All (λ column. contains_string (common present held) column ≡ true) key
      × (source.select (select_sql table.schema table.name (common present held)) ≡ full rows)
      × RowsLoaded D table lsn time (common present held) key rows before after

  abbrev pub TablesLoaded : List PublishedTable → D.Db → D.Db → Type 0
  TablesLoaded [] before after = before ≡ after
  TablesLoaded (table ∷ tables) before after =
      (middle : D.Db) × TableLoaded table before middle × TablesLoaded tables middle after

key_found :
    (table : String) (r : Result (List String)) {key : List String}
    → found_key table r ≡ ok key
    → (r ≡ ok key) × (is_empty key ≡ false)
unfolding found_key
key_found table (err e) h = cc
key_found table (ok []) h = cc
key_found table (ok (column ∷ columns)) h = (h, ap is_empty (sym (ok-injective h)))

keys_copied :
    (schema table : String) (columns key : List String)
    → key_copied schema table columns key ≡ ok tt
    → All (λ column. contains_string columns column ≡ true) key
unfolding key_copied
keys_copied schema table columns [] h = tt
keys_copied schema table columns (column ∷ key) h =
    ground (arith, keys_copied schema table columns key)

module _ {D : Database} (parse_lsn : LsnParser) (source : Source) (layout : Layout D) (lsn : String)
    (time : ℕ) where
  selected-Ends :
      (table : PublishedTable) (columns key : List String) (query : Query (List Scanned))
      (w : World D)
      → Ends
          (λ _ w'.
            (rows : List (List Scanned)) × (query ≡ full rows)
            × RowsLoaded D table lsn time columns key rows w.db w'.db)
          (copy_selected D parse_lsn source layout table lsn time columns key query)
          w
  unfolding copy_selected
  selected-Ends table columns key (err e) w = Ends-fail _ w
  selected-Ends table columns key (ok rows) w =
      Ends-weaken _ w
        (rows-Ends parse_lsn source layout table lsn time columns key rows.scanned rows.ended 0 w)
        λ _ w' copied.
          (copied.0, ap ok (λ i. record { scanned = copied.1 i; ended = copied.2 i }), copied.3)

  table-Ends :
      (table : PublishedTable) (key : List String) (w : World D)
      → layout.primary_key (dotted table.schema table.name) w.db ≡ full key
      → is_empty key ≡ false
      → Ends
          (λ _ w'. TableLoaded source layout lsn time table w.db w'.db)
          (copy_table D parse_lsn source layout table lsn time key)
          w
  unfolding copy_table
  table-Ends table key w key_at nonempty =
      let name = dotted table.schema table.name in
      Ends-bind (asked D parse_lsn source layout (of_columns name) (layout.columns name)) _ w
        λ held held_at.
          Ends-check
            (read_all (of_source_columns table.schema table.name)
              (source.present (qualified table.schema table.name) held))
            _ w
            λ present present_at.
              Ends-check (key_copied table.schema table.name (common present held) key) _ w
                λ _ copied.
                  Ends-weaken _ w
                    (selected-Ends table (common present held) key
                      (source.select (select_sql table.schema table.name (common present held))) w)
                    λ _ w' loaded. (
                      key,
                      held,
                      present,
                      loaded.0,
                      key_at,
                      nonempty,
                      read_all-eq-ok _ _ held_at,
                      read_all-eq-ok _ _ present_at,
                      keys_copied table.schema table.name (common present held) key copied,
                      loaded.1,
                      loaded.2,
                    )

  tables-Ends :
      (tables : List PublishedTable) (total : ℕ) (w : World D)
      → Ends
          (λ _ w'. TablesLoaded source layout lsn time tables w.db w'.db)
          (copy_tables D parse_lsn source layout lsn time tables total)
          w
  unfolding copy_tables destination_primary_key
  tables-Ends [] total w = Ends-lift _ w λ _ at. refl
  tables-Ends (table ∷ tables) total w =
      let name = dotted table.schema table.name in
      Ends-bind (destination_primary_key D parse_lsn source layout name) _ w λ key key_at.
        let (found, nonempty) = key_found name _ key_at in
        Ends-bind (copy_table D parse_lsn source layout table lsn time key) _ w λ count copied.
          let loaded = (table-Ends table key w (read_all-eq-ok _ _ found) nonempty).after copied in
          Ends-weaken _ _ (tables-Ends tables (total + count) _) λ _ w' later. (_, loaded, later)

  copied-Ends :
      (tables : List PublishedTable) (w : World D)
      → Ends
          (λ _ w'. TablesLoaded source layout lsn time tables w.db w'.db)
          (do total ← copy_tables D parse_lsn source layout lsn time tables 0; pure tt)
          w
  copied-Ends tables w =
      Ends-bind (copy_tables D parse_lsn source layout lsn time tables 0) _ w
        λ total copied. Ends-lift _ _ λ _ at. (tables-Ends tables 0 w).after copied

  pub load-Ends :
      (laws : Laws D) (tables : List PublishedTable) (w : World D)
      → Ends
          (λ _ w'. TablesLoaded source layout lsn time tables w.db w'.db)
          (load_tables D parse_lsn source layout lsn time tables)
          w
  unfolding load_tables
  load-Ends laws tables w =
      in_tx-Ends laws (TablesLoaded source layout lsn time tables w.db) _ _ [] _ w
        (copied-Ends tables w)

  pub load_failed :
      (laws : Laws D) (tables : List PublishedTable) (w : World D) {e : Error}
      → (load_tables D parse_lsn source layout lsn time tables w).0 ≡ err e
      → let after = (load_tables D parse_lsn source layout lsn time tables w).1.db in
        (after ≡ w.db) ⊎ TablesLoaded source layout lsn time tables w.db after
  unfolding load_tables
  load_failed laws tables w h =
      in_tx_failed laws (TablesLoaded source layout lsn time tables w.db) _ _ [] _ w
        (copied-Ends tables w) h
