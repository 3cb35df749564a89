-- ===== src/Destination/Snapshot/Loading.antt =====
-- What a snapshot (internal/destination/snapshot.go) has to write, stated of the database alone, and
-- that `RunSnapshot` writes it.
use pg_live_sync.Prelude.{
  ℕ, suc, ◌≡◌, refl, ap, String, Option, none, some, List, [], ◌∷◌, keys, sort_strings, map, lookup,
  All, arith,
}
use pg_live_sync.Errclass.{Error, Result, ok, err}
use pg_live_sync.Action.{map_error}
use pg_live_sync.Action.Ends.{
  Ends, Ends-bind, Ends-check, Ends-fail, Ends-lift, Ends-weaken, map_error-eq-ok,
}
use pg_live_sync.Cdc.{Row}
use pg_live_sync.Destination.Sql.{Types, qualified}
use pg_live_sync.Destination.Rows.{Param, value_of, verify_ident, transcode_row, append_numbered}
use pg_live_sync.Destination.Database.{Database, Statement, upsert}
use pg_live_sync.Destination.Columns.{World, table_columns}
use pg_live_sync.Destination.Columns.Caching.{table_columns-Keeps}
use pg_live_sync.Destination.Upserts.{LsnParser}
use pg_live_sync.Destination.Apply.Statements.{exec-Ends}
use pg_live_sync.Destination.Queries.{at_end}
use pg_live_sync.Destination.Snapshot.Copying.{copy_row, copy_rows}
use pg_live_sync.Destination.Snapshot.{
  PublishedTable, Scanned, Source, Layout, fill_row, verify_row, present_value, also, key_of,
  key_in_row, snapshot_error, upsert_snapshot_row,
}

-- The row has a value for each key column, which is not NULL.
abbrev pub HasKey : Row → List String → Type 0
HasKey row = All (λ column. (text : String) × (lookup column row ≡ some (some text)))

-- The statement that writes a row, with its values in the order of its columns.
abbrev pub written : PublishedTable → Row → List String → Types → Statement
written table row key types =
    upsert (qualified table.schema table.name) (sort_strings (keys row))
      (sort_strings (keys (key_of row key []))) types

abbrev pub values_of : Row → String → ℕ → List Param
values_of row lsn time = append_numbered (map (value_of row) (sort_strings (keys row))) lsn time

module _ (D : Database) (table : PublishedTable) (lsn : String) (time : ℕ) where
  -- From `before` to `after` each row is written by one upsert, in order and with nothing else.
  abbrev pub RowsLoaded : List String → List String → List (List Scanned) → D.Db → D.Db → Type 0
  RowsLoaded columns key [] before after = before ≡ after
  RowsLoaded columns key (values ∷ rows) before after =
      (row : Row) × (types : Types) × (middle : D.Db) × (fill_row columns values [] ≡ ok row)
      × HasKey row key
      × (D.execute (written table row key types) (values_of row lsn time) before ≡ ok middle)
      × RowsLoaded columns key rows middle after

transcoded :
    (row : Row) (r : List String × List Param)
    → transcode_row row ≡ ok r
    → (r.0 ≡ sort_strings (keys row)) × (r.1 ≡ map (value_of row) (sort_strings (keys row)))
unfolding transcode_row
transcoded row r h = ground arith

valued :
    (row : Row) (column : String) (found : Option (Option String))
    → present_value column found ≡ ok tt
    → (text : String) × (found ≡ some (some text))
unfolding present_value
valued row column none h = cc
valued row column (some none) h = cc
valued row column (some (some text)) h = (text, refl)

also-eq-ok : (r s : Result (Unit {0})) → also r s ≡ ok tt → (r ≡ ok tt) × (s ≡ ok tt)
unfolding also
also-eq-ok (ok _) s h = (refl, h)
also-eq-ok (err e) s h = cc

verified : (row : Row) (key : List String) → verify_row row key ≡ ok tt → HasKey row key
unfolding verify_row
verified row [] h = tt
verified row (column ∷ key) h =
    let (here, later) = also-eq-ok _ _ h in
    (valued row column (lookup column row) here, verified row key later)

module _ {D : Database} (parse_lsn : LsnParser) where
  -- The row was written by one upsert from `before` on.
  abbrev Upserted : String → String → Row → Row → String → ℕ → D.Db → Unit {0} → World D → Type 0
  Upserted schema table row key lsn time before _ w =
      (types : Types) × (D.execute
          (upsert (qualified schema table) (sort_strings (keys row)) (sort_strings (keys key))
            types)
          (values_of row lsn time) before
        ≡ ok w.db)

  sent :
      (schema table : String) (row key : Row) (lsn : String) (time : ℕ) (w w' : World D)
      (types : Types) (r k : List String × List Param)
      → map_error (snapshot_error schema table) (transcode_row row) ≡ ok r
      → map_error (snapshot_error schema table) (transcode_row key) ≡ ok k
      → D.execute
          (upsert (qualified schema table) r.0 k.0 types)
          (append_numbered r.1 lsn time)
          (table_columns D schema table w).1.db
        ≡ ok w'.db
      → D.execute
          (upsert
            (qualified schema table)
            (sort_strings (keys row))
            (sort_strings (keys key))
            types)
          (values_of row lsn time)
          w.db
        ≡ ok w'.db
  sent schema table row key lsn time w w' types r k row_ok key_ok at =
      let row_same = transcoded row r (map_error-eq-ok _ _ row_ok) in
      let key_same = transcoded key k (map_error-eq-ok _ _ key_ok) in
      let same = (table_columns-Keeps (λ db. db ≡ w.db) schema table).after w refl in
      cc (row_same.0, row_same.1, key_same.0, same, at)

  upserted :
      (schema table : String) (row key : Row) (lsn : String) (time : ℕ) (w : World D)
      → Ends
          (Upserted schema table row key lsn time w.db)
          (upsert_snapshot_row D parse_lsn schema table row key lsn time)
          w
  unfolding upsert_snapshot_row
  upserted schema table row key lsn time w =
      Ends-check (map_error (snapshot_error schema table) (verify_ident schema)) _ w λ _ schema_ok.
        Ends-check (map_error (snapshot_error schema table) (verify_ident table)) _ w λ _ table_ok.
          Ends-check (map_error (snapshot_error schema table) (transcode_row row)) _ w λ r row_ok.
            Ends-check (map_error (snapshot_error schema table) (transcode_row key)) _ w λ k key_ok.
              Ends-check (key_in_row schema table r.0 k.0) _ w λ _ in_row.
                Ends-bind (table_columns D schema table) _ w λ types seen.
                  Ends-weaken _ (table_columns D schema table w).1
                    (exec-Ends parse_lsn (upsert (qualified schema table) r.0 k.0 types)
                      (append_numbered r.1 lsn time) _ (table_columns D schema table w).1)
                    λ _ w' at.
                      (types, sent schema table row key lsn time w w' types r k row_ok key_ok at)

  module _ (source : Source) (layout : Layout D) (table : PublishedTable) (lsn : String)
      (time : ℕ) where
    row-Ends :
        (columns key : List String) (values : List Scanned) (w : World D)
        → Ends
            (λ _ w'.
              (row : Row) × (types : Types) × (fill_row columns values [] ≡ ok row)
              × HasKey row key
              × (D.execute (written table row key types) (values_of row lsn time) w.db ≡ ok w'.db))
            (copy_row D parse_lsn source layout table lsn time columns key values)
            w
    unfolding copy_row
    row-Ends columns key values w = Ends-check (fill_row columns values []) _ w λ row filled.
        Ends-check (map_error _ (verify_row row key)) _ w λ _ checked.
          Ends-weaken _ w (upserted table.schema table.name row (key_of row key []) lsn time w)
            λ _ w' at. (row, at.0, filled, verified row key (map_error-eq-ok _ _ checked), at.1)

    at_end-eq-ok :
        (wrap : Error → Error) (count : ℕ) (ended : Option Error) {n : ℕ}
        → at_end wrap count ended ≡ ok n
        → ended ≡ none
    unfolding at_end
    at_end-eq-ok wrap count none h = refl
    at_end-eq-ok wrap count (some e) h = cc

    -- The rows that came are all there, and all are loaded.
    abbrev pub Copied :
        List String
        → List String
        → List (Result (List Scanned))
        → Option Error
        → D.Db
        → ℕ
        → World D
        → Type 0
    Copied columns key scanned ended before _ w =
        (rows : List (List Scanned)) × (scanned ≡ map ok rows)
        × (ended ≡ none)
        × RowsLoaded D table lsn time columns key rows before w.db

    pub rows-Ends :
        (columns key : List String) (scanned : List (Result (List Scanned))) (ended : Option Error)
        (count : ℕ) (w : World D)
        → Ends
            (Copied columns key scanned ended w.db)
            (copy_rows D parse_lsn source layout table lsn time columns key scanned ended count)
            w
    unfolding copy_rows
    rows-Ends columns key [] ended count w =
        Ends-lift _ w λ n at. ([], refl, at_end-eq-ok _ count ended at, refl)
    rows-Ends columns key (err e ∷ rows) ended count w = Ends-fail _ w
    rows-Ends columns key (ok values ∷ rows) ended count w =
        Ends-bind (copy_row D parse_lsn source layout table lsn time columns key values) _ w
          λ _ done.
            let (row, types, filled, has, at) = (row-Ends columns key values w).after done in
            Ends-weaken _ _ (rows-Ends columns key rows ended (suc count) _) λ _ w' later. (
              values ∷ later.0,
              ap (◌∷◌ (ok values)) later.1,
              later.2,
              (row, types, _, filled, has, at, later.3),
            )
