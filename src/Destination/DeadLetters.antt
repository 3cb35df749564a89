-- ===== src/Destination/DeadLetters.antt =====
-- `RecordDeadLetter` of internal/destination/applier.go, and internal/destination/deadletter.go.
pub mod Markers
pub mod Recording
pub mod Transactions
pub mod Replay
pub mod Listing
use pg_live_sync.Prelude.{String, Bool, true, Option, none, some, List, [], ◌∷◌}
use pg_live_sync.Errclass.{Error, errorf, wrapf, shownf, Result, ok, err}
use pg_live_sync.Action.{Action, pure, map_error, ◌>>=◌, ◌>>◌}
use pg_live_sync.Cdc.{Event, event_version}
use pg_live_sync.Destination.Rows.{Param, text, lsn, time, json_row, json_names, operation, reason}
use pg_live_sync.Destination.Database.{
  Database, Statement, StoredLetter, insert_dead_letter, delete_dead_letter, delete_marker,
}
use pg_live_sync.Destination.Columns.{World}
use pg_live_sync.Destination.Apply.{apply, mark_applied}
use pg_live_sync.Destination.Upserts.{LsnParser}

-- DeadLetter.Event
unfoldable pub event_of_letter : StoredLetter → Event
event_of_letter letter = record {
  version = event_version;
  id = letter.event_id;
  schema = letter.schema_name;
  table = letter.table_name;
  operation = letter.operation;
  key = letter.key;
  before = letter.before;
  after = letter.after;
  source = record {
    transaction_id = 0;
    commit_lsn = letter.source_lsn;
    transaction_end_lsn = "";
    commit_time = letter.source_commit_time;
    sequence = 0;
    transaction_event_count = 0;
  };
  unchanged_columns = letter.unchanged_columns;
}

-- The parameters $1 to $11 of the insert.
unfoldable pub letter_parameters : Event → Error → List Param
letter_parameters event why =
    text (some event.id)
    ∷ text (some event.schema)
    ∷ text (some event.table)
    ∷ operation event.operation
    ∷ lsn event.source.commit_lsn
    ∷ time event.source.commit_time
    ∷ json_row event.key
    ∷ json_row event.before
    ∷ json_row event.after
    ∷ json_names event.unchanged_columns
    ∷ reason why
    ∷ []

module _ (D : Database) where
  ran : (Error → Error) → Result D.Db → Action (World D) Unit
  ran wrap (ok db) w = (ok tt, record w { db = db })
  ran wrap (err e) w = (err (wrap e), w)

  -- connection.Exec or transaction.Exec, with the text of its error. A failure changes nothing: the
  -- transaction that the statement is part of, or that it is by itself, is rolled back.
  unfoldable pub run : Statement → List Param → (Error → Error) → Action (World D) Unit
  unfolding ran
  run statement parameters wrap w = ran wrap (D.execute statement parameters w.db) w

  -- A destination transaction around an action: begin, the action, commit. Where the action fails,
  -- the deferred rollback leaves the database as it was.
  close_tx : String → List String → D.Db → Result (Unit {0}) × World D → Result (Unit {0}) × World D
  close_tx commit_text args before (err e, w) = (err e, record w { db = before })
  close_tx commit_text args before (ok _, w) =
      let (done, db) = D.commit_tx before w.db in
      (map_error (wrapf commit_text args) done, record w { db = db })

  started :
      String
      → String
      → List String
      → Action (World D) Unit
      → Result (Unit {0})
      → Action (World D) Unit
  unfolding close_tx
  started begin_text commit_text args m (err e) w = (err (wrapf begin_text [] e), w)
  started begin_text commit_text args m (ok _) w = close_tx commit_text args w.db (m w)

  unfoldable pub in_tx :
      String → String → List String → Action (World D) Unit → Action (World D) Unit
  unfolding started
  in_tx begin_text commit_text args m w = started begin_text commit_text args m (D.begin_tx w.db) w

-- `RecordDeadLetter`: the marker and the copy of the event, in one transaction.
module _ (D : Database) (parse_lsn : LsnParser) where
  quarantine_writes : Event → Error → Action (World D) Unit
  unfolding letter_parameters
  quarantine_writes event why = do
    fresh ← mark_applied D parse_lsn event.id event.source.commit_lsn
    run D insert_dead_letter (letter_parameters event why)
        (wrapf "insert dead-letter record: %w" [])

  unfoldable pub record_dead_letter : Event → Error → Action (World D) Unit
  unfolding in_tx quarantine_writes
  record_dead_letter event why =
      in_tx D "begin dead-letter transaction: %w" "commit dead-letter transaction: %w" []
        (quarantine_writes event why)

  loaded : String → Result (Option StoredLetter) → Result StoredLetter
  loaded id (ok (some letter)) = ok letter
  loaded id (ok none) =
      err (wrapf "load dead letter %s: %w" (id ∷ []) (errorf "no such dead letter" []))
  loaded id (err e) =
      err (wrapf "load dead letter %s: %w" (id ∷ []) (wrapf "scan dead letter: %w" [] e))

  -- `GetDeadLetter`
  unfoldable pub get_dead_letter : String → Action (World D) StoredLetter
  unfolding loaded
  get_dead_letter id w = (loaded id (D.dead_letter id w.db), w)

  unstashed : String → Error → Result (Unit {0}) → Error
  unstashed id e (ok _) = wrapf "replay %s: %w" (id ∷ []) e
  unstashed id e (err f) =
      shownf "replay %s failed: %v (and re-stashing the quarantine marker failed: %v)" (id ∷ []) f

  -- After a failed replay the marker is stashed again.
  restash : String → Event → Error → Action (World D) Bool
  unfolding record_dead_letter unstashed
  restash id event e w =
      let (stashed, w') = record_dead_letter event (shownf "replay failed: " [] e) w in
      (err (unstashed id e stashed), w')

  replayed : String → Event → Result Bool → Action (World D) Bool
  unfolding restash
  replayed id event (err e) = restash id event e
  replayed id event (ok applied) = do
    run D delete_dead_letter (text (some id) ∷ [])
        (wrapf "drop replayed dead letter %s: %w" (id ∷ []))
    pure true

  -- `ReplayDeadLetter`
  unfoldable pub replay_dead_letter : String → Action (World D) Bool
  unfolding replayed get_dead_letter event_of_letter
  replay_dead_letter id = do
    letter ← get_dead_letter id
    run D delete_marker (text (some id) ∷ []) (wrapf "rewind quarantine marker %s: %w" (id ∷ []))
    outcome ←
        λ (w : World D). (let (r, w') = apply D parse_lsn (event_of_letter letter) w in (ok r, w'))
    replayed id (event_of_letter letter) outcome

  -- `DropDeadLetter`
  unfoldable pub drop_dead_letter : String → Action (World D) Unit
  unfolding in_tx
  drop_dead_letter id =
      in_tx D "begin dead-letter drop: %w" "commit dead-letter drop %s: %w" (id ∷ []) (do
        run D delete_dead_letter (text (some id) ∷ [])
            (wrapf "drop dead-letter record %s: %w" (id ∷ []))
        run D delete_marker (text (some id) ∷ []) (wrapf "drop quarantine marker %s: %w" (id ∷ [])))
