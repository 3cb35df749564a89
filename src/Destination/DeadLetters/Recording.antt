-- ===== src/Destination/DeadLetters/Recording.antt =====
-- What `RecordDeadLetter` (internal/destination/applier.go) leaves behind when it gives no error.
use pg_live_sync.Prelude.{◌≡◌, ◌≢◌, String, none, List, ◌∷◌, some}
use pg_live_sync.Errclass.{Error, ok}
use pg_live_sync.Action.Ends.{Ends, Ends-bind, Ends-weaken}
use pg_live_sync.Cdc.{Event}
use pg_live_sync.Destination.Rows.{Param, text}
use pg_live_sync.Destination.Database.{Database, insert_dead_letter}
use pg_live_sync.Destination.Database.Laws.{Laws}
use pg_live_sync.Destination.Columns.{World}
use pg_live_sync.Destination.Apply.{mark_applied}
use pg_live_sync.Destination.Upserts.{LsnParser}
use pg_live_sync.Destination.Apply.Markers.{IsMarked}
use pg_live_sync.Destination.DeadLetters.{letter_parameters, quarantine_writes, record_dead_letter}
use pg_live_sync.Destination.DeadLetters.Markers.{record-Ensures}
use pg_live_sync.Destination.DeadLetters.Transactions.{run-Ends, in_tx-Ends}

-- INSERT INTO cdc_dead_letters ... ON CONFLICT (event_id) DO UPDATE: afterwards there is a row with
-- the event id that is its first parameter.
pub record StoresLetters (D : Database) : Type 0 where
  pub stored :
      (id : String) (others : List Param) (db : D.Db) {db' : D.Db}
      → D.execute insert_dead_letter (text (some id) ∷ others) db ≡ ok db'
      → D.dead_letter id db' ≢ ok none

module _ {D : Database} (laws : Laws D) (stores : StoresLetters D) (parse_lsn : LsnParser) where
  writes-Ends :
      (event : Event) (why : Error) (w : World D)
      → Ends
          (λ _ w'. D.dead_letter event.id w'.db ≢ ok none)
          (quarantine_writes D parse_lsn event why)
          w
  unfolding quarantine_writes letter_parameters
  writes-Ends event why w =
      Ends-bind (mark_applied D parse_lsn event.id event.source.commit_lsn) _ w λ fresh marked.
        Ends-weaken _ _ (run-Ends insert_dead_letter (letter_parameters event why) _ _)
          λ _ w' executes. stores.stored event.id _ _ executes

  -- If `RecordDeadLetter` gives no error, the event is marked as applied, and its dead letter is
  -- stored: a query for it does not answer that there is none. This where PostgreSQL keeps its word
  -- on markers, COMMIT and INSERT.
  pub record_dead_letter-IsRecorded :
      (event : Event) (why : Error) (w : World D)
      → (record_dead_letter D parse_lsn event why w).0 ≡ ok tt
      → let after = (record_dead_letter D parse_lsn event why w).1 in
        IsMarked D event.id after × (D.dead_letter event.id after.db ≢ ok none)
  unfolding record_dead_letter
  record_dead_letter-IsRecorded event why w h = (
    (record-Ensures laws parse_lsn event why).after w h,
    (in_tx-Ends laws (λ db. D.dead_letter event.id db ≢ ok none) _ _ _
          (quarantine_writes D parse_lsn event why) w (writes-Ends event why w)).after
        h,
  )
