-- ===== src/Scenarios.antt =====
-- Sample data for the runs in the modules below: a source transaction, a destination that keeps its
-- markers and the log of its statements, and services that answer without errors.
pub mod Decoding
pub mod Retrying
pub mod Applying
pub mod Writing
pub mod Reading
pub mod Piping
pub mod Settling
pub mod Accepting
pub mod Snapshotting
pub mod Operating
pub mod Booting
pub mod Polling
pub mod Connecting
use pg_live_sync.Prelude.{
  ℕ, zero, suc, ◌+◌, ◌≡◌, refl, sym, ap, String, eq_iff, eq_refl, Bool, true, false, ◌||◌, Option,
  none, some, List, [], ◌∷◌, ◌++◌, contains_string, if◌then◌else◌, arith,
}
use mathlib.Core.Path.{subst}
use pg_live_sync.Errclass.{Error, transport, Result, ok, err, ok-injective}
use pg_live_sync.Retry.{Round}
use pg_live_sync.Cdc.{Event, SourceMetadata, insert_op, event_version}
use pg_live_sync.Destination.Database.{
  Database, Statement, ColumnDef, StoredLetter, insert_dead_letter,
}
use pg_live_sync.Destination.Database.Laws.{Laws, leaves_markers}
use pg_live_sync.Destination.Rows.{Param, text}
use pg_live_sync.Destination.Columns.{World}
use pg_live_sync.Destination.Queries.{full}

-- The contents of the sample destination.
pub record Contents : Type 0 where
  pub markers : List String
  pub log : List Statement
  -- the event ids of the dead letters
  pub letters : List String

abbrev pub sent : Bool → Statement → Contents → Result Contents
sent true statement db = ok (record db { log = db.log ++ statement ∷ [] })
sent false statement db =
    ok (record { markers = []; log = db.log ++ statement ∷ []; letters = db.letters })

abbrev pub letters_after : Statement → List Param → List String → List String
letters_after insert_dead_letter (text (some id) ∷ others) letters = id ∷ letters
letters_after _ _ letters = letters

abbrev pub marked : Bool → String → Contents → Result (Bool × Contents)
marked true id db = ok (false, db)
marked false id db = ok (true, record db { markers = id ∷ db.markers })

-- A letter is found where one was stored.
abbrev pub stored_letter : Bool → String → Option StoredLetter
stored_letter true id = some (record {
  event_id = id;
  schema_name = "public";
  table_name = "users";
  operation = insert_op;
  source_lsn = "0/10";
  source_commit_time = 1000;
  key = ("id", some "7") ∷ [];
  before = [];
  after = ("id", some "7") ∷ ("name", some "Ada") ∷ [];
  unchanged_columns = [];
  reason = transport "column is missing";
})
stored_letter false id = none

abbrev pub sample_database : Database
sample_database = record {
  Db = Contents;
  execute = λ statement parameters db.
      sent (leaves_markers statement) statement
        (record db { letters = letters_after statement parameters db.letters });
  mark = λ id commit_lsn db. marked (contains_string db.markers id) id db;
  watermark = λ table db. ok none;
  probe = λ table columns types parameters db. ok none;
  catalog = λ table db. full (record { name = "id"; data_type = "bigint" } ∷ []);
  begin_tx = λ db. ok tt;
  commit_tx = λ before after. (ok tt, after);
  close_batch = λ db. ok tt;
  dead_letter = λ id db. ok (stored_letter (contains_string db.letters id) id);
  is_marked = λ db id. contains_string db.markers id;
}

marked_there :
    (id : String) (db : Contents) (there : Bool) {fresh : Bool} {db' : Contents}
    → contains_string db.markers id ≡ there
    → marked there id db ≡ ok (fresh, db')
    → contains_string db'.markers id ≡ true
unfolding contains_string
marked_there id db true h at = cc
marked_there id db false h at = ground (arith, eq_refl id)

marked_keeps :
    (id other : String) (db : Contents) (there : Bool) {fresh : Bool} {db' : Contents}
    → marked there id db ≡ ok (fresh, db')
    → contains_string db.markers other ≡ true
    → contains_string db'.markers other ≡ true
unfolding contains_string
marked_keeps id other db true at h = cc
marked_keeps id other db false at h = ground (arith)

marked_seen :
    (id : String) (db : Contents) (there : Bool) {fresh : Bool} {db' : Contents}
    → contains_string db.markers id ≡ there
    → there ≡ true
    → marked there id db ≡ ok (fresh, db')
    → (fresh ≡ false) × (db' ≡ db)
marked_seen id db true same h at =
    (ap (λ x. x.0) (ok-injective (sym at)), ap (λ x. x.1) (ok-injective (sym at)))
marked_seen id db false same h at = cc

sent_keeps :
    (statement : Statement) (id : String) (db : Contents) (leaves : Bool) {db' : Contents}
    → leaves ≡ true
    → sent leaves statement db ≡ ok db'
    → contains_string db.markers id ≡ true
    → contains_string db'.markers id ≡ true
sent_keeps statement id db true l at h =
    subst (λ d. contains_string d.markers id ≡ true) (ok-injective at) h
sent_keeps statement id db false l at h = cc

pub sample-Laws : Laws sample_database
sample-Laws = record {
  mark_marks = λ id commit_lsn db at. marked_there id db (contains_string db.markers id) refl at;
  mark_keeps =
      λ id commit_lsn other db at h. marked_keeps id other db (contains_string db.markers id) at h;
  mark_seen = λ id commit_lsn db h at. marked_seen id db (contains_string db.markers id) refl h at;
  execute_keeps = λ statement parameters id db leaves at h.
      sent_keeps statement id
        (record db { letters = letters_after statement parameters db.letters })
        (leaves_markers statement) leaves at h;
  commits = λ before after h. refl;
  aborts = λ before after h. cc;
}

-- An insert, as the reader makes it.
abbrev pub sample_event : ℕ → String → Event
sample_event sequence id = record {
  version = event_version;
  id = id;
  schema = "public";
  table = "users";
  operation = insert_op;
  key = ("id", some "7") ∷ [];
  before = [];
  after = ("id", some "7") ∷ ("name", some "Ada") ∷ [];
  source = record {
    transaction_id = 42;
    commit_lsn = "0/10";
    transaction_end_lsn = "0/20";
    commit_time = 1000;
    sequence = sequence;
    transaction_event_count = 2;
  };
  unchanged_columns = [];
}

abbrev pub first_event : Event
first_event = sample_event 1 "0/10-1"

abbrev pub second_event : Event
second_event = sample_event 2 "0/10-2"

-- A destination to which nothing has been applied, and an applier with an empty cache.
abbrev pub sample_world : World sample_database
sample_world = record {
  db = record { markers = []; log = []; letters = [] };
  columns_seen_at = [];
  columns_by_table = [];
  now = 0;
}

-- An attempt that succeeds, and one that fails.
abbrev pub good_round : ℕ → Round
good_round attempt = record { outcome = none; cancelled = none }

abbrev pub bad_round : ℕ → Round
bad_round attempt = record { outcome = some (transport "unavailable"); cancelled = none }
