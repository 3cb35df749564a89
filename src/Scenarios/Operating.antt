-- ===== src/Scenarios/Operating.antt =====
-- Runs of cdcctl on a destination with one dead letter, and of the configuration's text.
use pg_live_sync.Prelude.{
  ◌≡◌, ◌≢◌, ◌↔◌, refl, contains_string, eq_refl, arith, sym, ap, ◌∙◌, String, str_eq, eq_iff, Bool,
  true, false, Option, none, some, List, [], ◌∷◌, All, if◌then◌else◌,
}
use pg_live_sync.Errclass.{errorf, ok, ok-injective}
use pg_live_sync.Config.{split_and_trim}
use pg_live_sync.Destination.Database.{Database, StoredLetter}
use pg_live_sync.Destination.Database.Laws.{Laws}
use pg_live_sync.Destination.Columns.{World}
use pg_live_sync.Destination.Queries.{full}
use pg_live_sync.Destination.DeadLetters.{record_dead_letter, replay_dead_letter}
use pg_live_sync.Destination.DeadLetters.Recording.{record_dead_letter-IsRecorded}
use pg_live_sync.Destination.Apply.Markers.{IsMarked}
use pg_live_sync.Destination.DeadLetters.Replay.{
  FindsLetters, StaysKnown, replay_dead_letter-StaysKnown,
}
use pg_live_sync.Destination.DeadLetters.Listing.{LetterQuery, list_dead_letters}
use pg_live_sync.Cdcctl.{Flags, action_replay, parse_args, replay_handler}
use pg_live_sync.Cdcctl.Handlers.{
  HasTarget, parse_args-HasTarget, AllReplay, replay_handler-AllReplay,
}
use pg_live_sync.Scenarios.{sample_world, sample_database, sample-Laws, first_event}
use pg_live_sync.Scenarios.Applying.{sample_parser}
use pg_live_sync.Scenarios.Settling.{sample-StoresLetters}

abbrev sample_letter : StoredLetter
sample_letter = record {
  event_id = "0/10-1";
  schema_name = "public";
  table_name = "users";
  operation = first_event.operation;
  source_lsn = "0/10";
  source_commit_time = 1000;
  key = first_event.key;
  before = first_event.before;
  after = first_event.after;
  unchanged_columns = [];
  reason = errorf "column is missing" [];
}

abbrev letter_of : Bool → Option StoredLetter
letter_of true = some sample_letter
letter_of false = none

abbrev letter_database : Database
letter_database = record sample_database {
  dead_letter = λ id db. ok (letter_of (str_eq "0/10-1" id));
}

letter-Laws : Laws letter_database
letter-Laws = record {
  mark_marks = sample-Laws.mark_marks;
  mark_keeps = sample-Laws.mark_keeps;
  mark_seen = sample-Laws.mark_seen;
  execute_keeps = sample-Laws.execute_keeps;
  commits = sample-Laws.commits;
  aborts = sample-Laws.aborts;
}

own_letter :
    (id : String) (same : Bool) {letter : StoredLetter}
    → str_eq "0/10-1" id ≡ same
    → ok (letter_of same) ≡ ok (some letter)
    → letter.event_id ≡ id
own_letter id true {letter} at h =
    let is : some sample_letter ≡ some letter = ok-injective h in
    let same : sample_letter ≡ letter = cc in
    ap (λ (l : StoredLetter). l.event_id) (sym same) ∙ (eq_iff "0/10-1" id).0 at
own_letter id false at h = cc (ok-injective h)

letter-FindsLetters : FindsLetters letter_database
letter-FindsLetters = record { own = λ id db at. own_letter id (str_eq "0/10-1" id) refl at }

abbrev quarantined_world : World letter_database
quarantined_world = record {
  db = record { markers = "0/10-1" ∷ []; log = []; letters = "0/10-1" ∷ [] };
  columns_seen_at = [];
  columns_by_table = [];
  now = 0;
}

replay_dead_letter-StaysKnown_example :
    StaysKnown "0/10-1"
      (replay_dead_letter letter_database sample_parser "0/10-1" quarantined_world).0
      (replay_dead_letter letter_database sample_parser "0/10-1" quarantined_world).1
unfolding pg_live_sync.Prelude.contains_string
replay_dead_letter-StaysKnown_example =
    replay_dead_letter-StaysKnown letter-Laws sample_parser letter-FindsLetters "0/10-1"
      quarantined_world refl

record_dead_letter-IsRecorded_example :
    let after =
      (record_dead_letter sample_database sample_parser first_event
        (errorf "column is missing" [])
        sample_world).1 in
    IsMarked sample_database "0/10-1" after
    × (sample_database.dead_letter "0/10-1" after.db ≢ ok none)
unfolding record_dead_letter contains_string pg_live_sync.Destination.Apply.mark_applied
    pg_live_sync.Destination.DeadLetters.run
record_dead_letter-IsRecorded_example =
    record_dead_letter-IsRecorded sample-Laws sample-StoresLetters sample_parser first_event
      (errorf "column is missing" []) sample_world refl

abbrev sample_letters : LetterQuery letter_database
sample_letters text arguments db = full (sample_letter ∷ [])

abbrev all_users : Flags
all_users = record { schema = "public"; table = "users"; event_id = ""; all = true }

abbrev unsplit_users : Flags
unsplit_users = record { schema = ""; table = "public.users"; event_id = ""; all = true }

parsed :
    parse_args ("replay" ∷ "-table" ∷ "public.users" ∷ "-all" ∷ []) (λ rest. ok unsplit_users)
    ≡ ok (record { action = action_replay; flags = all_users })
unfolding parse_args pg_live_sync.Config.cut
parsed = refl

parse_args-HasTarget_example : HasTarget all_users
parse_args-HasTarget_example =
    parse_args-HasTarget ("replay" ∷ "-table" ∷ "public.users" ∷ "-all" ∷ [])
      (λ rest. ok unsplit_users) (record { action = action_replay; flags = all_users }) parsed refl

listed :
    (list_dead_letters letter_database sample_letters "public" "users" quarantined_world).0
    ≡ ok (sample_letter ∷ [])
unfolding list_dead_letters pg_live_sync.Destination.Queries.read_all
listed = refl

replay_handler-AllReplay_example :
    ((replay_handler letter_database sample_parser sample_letters all_users quarantined_world).0
      ≡ ok tt)
    ↔ AllReplay sample_parser sample_letters (sample_letter ∷ []) quarantined_world
replay_handler-AllReplay_example =
    replay_handler-AllReplay sample_parser sample_letters all_users quarantined_world
      (sample_letter ∷ []) refl listed

two_brokers : split_and_trim " kafka-1:9092 ,, kafka-2:9092" ≡ "kafka-1:9092" ∷ "kafka-2:9092" ∷ []
unfolding split_and_trim pg_live_sync.Config.is_space
two_brokers = refl
