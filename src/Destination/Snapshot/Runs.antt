-- ===== src/Destination/Snapshot/Runs.antt =====
-- `RunSnapshot` of internal/destination/snapshot.go writes the snapshot of the published tables, or nothing.
use pg_live_sync.Prelude.{ℕ, ◌≡◌, refl, String, false, List, is_empty, ◌⊎◌, inl, inr}
use pg_live_sync.Errclass.{Error, ok, err}
use pg_live_sync.Action.{map_error}
use pg_live_sync.Action.Ends.{
  Ends, Ends-bind, Ends-check, Ends-fail, Ends-if, Ends-lift, map_error-eq-ok,
}
use pg_live_sync.Action.Fails.{Fails, Fails-bind, Fails-check, Fails-if, Fails-lift}
use pg_live_sync.Destination.Database.{Database}
use pg_live_sync.Destination.Database.Laws.{Laws}
use pg_live_sync.Destination.Columns.{World}
use pg_live_sync.Destination.Upserts.{LsnParser}
use pg_live_sync.Destination.Queries.{full, read_all, read_all-eq-ok}
use pg_live_sync.Destination.Snapshot.{PublishedTable, Source, Layout}
use pg_live_sync.Destination.Snapshot.Copying.{of_publication, load_tables, run_snapshot}
use pg_live_sync.Destination.Snapshot.Tables.{TablesLoaded, load-Ends, load_failed}

module _ {D : Database} (source : Source) (layout : Layout D) where
  -- The snapshot of the published tables at the slot's restart point was written.
  abbrev pub SnapshotTaken : D.Db → D.Db → Type 0
  SnapshotTaken before after =
      (lsn : String) × (time : ℕ) × (tables : List PublishedTable) × (source.restart_lsn ≡ ok lsn)
      × (source.now ≡ ok time)
      × (source.published ≡ full tables)
      × (is_empty tables ≡ false)
      × TablesLoaded source layout lsn time tables before after

module _ {D : Database} (laws : Laws D) (parse_lsn : LsnParser) (source : Source)
    (layout : Layout D) where
  pub run_snapshot-Ends :
      (slot publication : String) (w : World D)
      → Ends
          (λ _ w'. SnapshotTaken source layout w.db w'.db)
          (run_snapshot D parse_lsn source layout slot publication)
          w
  unfolding run_snapshot
  run_snapshot-Ends slot publication w = Ends-check (map_error _ source.connect) _ w λ _ connected.
      Ends-check (map_error _ source.restart_lsn) _ w λ lsn lsn_at.
        Ends-check (read_all (of_publication publication) source.published) _ w λ tables tables_at.
          Ends-if (is_empty tables) _ _ w (λ none_there. Ends-fail _ w)
            λ nonempty. Ends-check (map_error _ source.begin_tx) _ w λ _ begun.
              Ends-check (map_error _ source.now) _ w λ time time_at.
                Ends-bind (load_tables D parse_lsn source layout lsn time tables) _ w λ _ loaded.
                  Ends-lift _ _ λ _ closed. (
                    lsn,
                    time,
                    tables,
                    map_error-eq-ok _ _ lsn_at,
                    map_error-eq-ok _ _ time_at,
                    read_all-eq-ok _ _ tables_at,
                    nonempty,
                    (load-Ends parse_lsn source layout lsn time laws tables w).after loaded,
                  )

  -- If `RunSnapshot` gives no error, the destination has exactly what a snapshot has to write:
  -- one upsert for each row of each published table, with the row's values and the slot's restart
  -- point, in order and with nothing else.
  pub run_snapshot-SnapshotTaken :
      (slot publication : String) (w : World D)
      → (run_snapshot D parse_lsn source layout slot publication w).0 ≡ ok tt
      → SnapshotTaken source layout w.db
          (run_snapshot D parse_lsn source layout slot publication w).1.db
  run_snapshot-SnapshotTaken slot publication w h = (run_snapshot-Ends slot publication w).after h

  run_snapshot-Fails :
      (slot publication : String) (w : World D)
      → Fails
          (λ w'. (w'.db ≡ w.db) ⊎ SnapshotTaken source layout w.db w'.db)
          (run_snapshot D parse_lsn source layout slot publication)
          w
  unfolding run_snapshot load_tables
  run_snapshot-Fails slot publication w =
      Fails-check (map_error _ source.connect) _ w (inl refl) λ _ connected.
        Fails-check (map_error _ source.restart_lsn) _ w (inl refl) λ lsn lsn_at.
          Fails-check (read_all (of_publication publication) source.published) _ w (inl refl)
            λ tables tables_at.
              Fails-if (is_empty tables) _ _ w (λ none_there. Fails-lift _ w (inl refl))
                λ nonempty. Fails-check (map_error _ source.begin_tx) _ w (inl refl) λ _ begun.
                  Fails-check (map_error _ source.now) _ w (inl refl) λ time time_at.
                    Fails-bind (load_tables D parse_lsn source layout lsn time tables) _ w
                      (record {
                        after = λ h.
                            elim (load_failed parse_lsn source layout lsn time laws tables w h) [
                              | inl same ↦ inl same
                              | inr loaded ↦ inr (
                                lsn,
                                time,
                                tables,
                                map_error-eq-ok _ _ lsn_at,
                                map_error-eq-ok _ _ time_at,
                                read_all-eq-ok _ _ tables_at,
                                nonempty,
                                loaded,
                              )
                            ];
                      })
                      λ _ loaded. Fails-lift _ _ (
                        inr (
                          lsn,
                          time,
                          tables,
                          map_error-eq-ok _ _ lsn_at,
                          map_error-eq-ok _ _ time_at,
                          read_all-eq-ok _ _ tables_at,
                          nonempty,
                          (load-Ends parse_lsn source layout lsn time laws tables w).after loaded,
                        ))

  -- If `RunSnapshot` gives an error, the destination is as it was before, or it has the whole
  -- snapshot, as after a failure to close the transaction on the source, or after a commit whose answer
  -- is lost.
  pub run_snapshot_failed :
      (slot publication : String) (w : World D) {e : Error}
      → (run_snapshot D parse_lsn source layout slot publication w).0 ≡ err e
      → let after = (run_snapshot D parse_lsn source layout slot publication w).1.db in
        (after ≡ w.db) ⊎ SnapshotTaken source layout w.db after
  run_snapshot_failed slot publication w h = (run_snapshot-Fails slot publication w).after h
