-- ===== src/Cdcctl.antt =====
-- cmd/cdcctl/main.go: the command line that lists, replays and drops dead letters. What the flag
-- package reads from the arguments comes in as a value; what the command prints is left out.
pub mod Handlers
use pg_live_sync.Prelude.{
  ℕ, String, str_eq, Bool, true, false, not, ◌&&◌, ◌||◌, Option, none, some, List, [], ◌∷◌, ◌++◌,
  length, is_empty, itoa, join, if◌then◌else◌,
}
use pg_live_sync.Errclass.{Error, errorf, wrapf, Result, ok, err, ◌>>=◌}
use pg_live_sync.Action.{Action, map_error, ◌>>◌}
use pg_live_sync.Config.{cut}
use pg_live_sync.Destination.Database.{Database, StoredLetter}
use pg_live_sync.Destination.Columns.{World}
use pg_live_sync.Destination.Upserts.{LsnParser}
use pg_live_sync.Destination.Schema.{ensure_meta_schema}
use pg_live_sync.Destination.DeadLetters.{replay_dead_letter, drop_dead_letter}
use pg_live_sync.Destination.DeadLetters.Listing.{LetterQuery, list_dead_letters}

pub data CommandAction : Type 0 where
  action_list action_replay action_drop : CommandAction

-- The flags as they are set by the arguments after the first; -dsn, -json and -timeout, which only
-- the connection and the printing read, are left out.
pub record Flags : Type 0 where
  pub schema : String
  pub table : String
  pub event_id : String
  pub all : Bool

pub record Command : Type 0 where
  pub action : CommandAction
  pub flags : Flags

unfoldable pub action_of : String → Result CommandAction
action_of word =
    if str_eq word "list"
    then ok action_list
    else if str_eq word "replay"
    then ok action_replay
    else if str_eq word "drop"
    then ok action_drop
    else err (errorf "unknown command %q (want list, replay, or drop)" (word ∷ []))

-- schema.table, split at the first dot (code 46)
with_parts : Flags → Option (String × String) → Flags
with_parts flags none = flags
with_parts flags (some (schema, table)) = record flags { schema = schema; table = table }

unfoldable pub split_table : Flags → Flags
unfolding with_parts
split_table flags = if str_eq flags.schema "" then with_parts flags (cut 46 flags.table) else flags

abbrev pub acts : CommandAction → Bool
acts action_list = false
acts action_replay = true
acts action_drop = true

-- The two checks at the end of `parseArgs`.
unfoldable pub check_target : CommandAction → Flags → Result Command
check_target action flags =
    if acts action && str_eq flags.event_id "" && not flags.all
    then err
        (errorf "replay and drop need -event ID or -all (to act on every matching dead letter)" [])
    else if not (str_eq flags.event_id "") && flags.all
    then err (errorf "-event and -all are mutually exclusive" [])
    else ok (record { action = action; flags = flags })

-- `parseArgs`, with what the flag package makes of the arguments after the first
unfoldable pub parse_args : List String → (List String → Result Flags) → Result Command
unfolding action_of check_target split_table
parse_args [] parse_flags = err (errorf "missing command (list, replay, drop)" [])
parse_args (word ∷ rest) parse_flags = parse_flags rest >>= λ flags.
    action_of word >>= λ action. check_target action (split_table flags)

-- The ids that were replayed and those that failed, in the order of the letters.
pub record Outcomes : Type 0 where
  pub replayed : List String
  pub failed : List String

abbrev pub noted : String → Result Bool → Outcomes → Outcomes
noted id (ok applied) outcomes = record outcomes { replayed = outcomes.replayed ++ id ∷ [] }
noted id (err e) outcomes = record outcomes { failed = outcomes.failed ++ id ∷ [] }

pub replay_result : Outcomes → Result (Unit {0})
replay_result outcomes =
    if is_empty outcomes.failed
    then ok tt
    else err (
        errorf "replayed %d, failed %d: %s" (
          itoa (length outcomes.replayed)
          ∷ itoa (length outcomes.failed)
          ∷ join ", " outcomes.failed
          ∷ []))

abbrev pub nothing_yet : Outcomes
nothing_yet = record { replayed = []; failed = [] }

module _ (D : Database) (parse_lsn : LsnParser) (letters : LetterQuery D) where
  -- The loop of `replayHandler`; a failure does not stop it.
  unfoldable pub replay_each : List StoredLetter → Outcomes → World D → Outcomes × World D
  replay_each [] outcomes w = (outcomes, w)
  replay_each (letter ∷ letters) outcomes w =
      let (r, w') = replay_dead_letter D parse_lsn letter.event_id w in
      replay_each letters (noted letter.event_id r outcomes) w'

  pub replay_listed : Result (List StoredLetter) → Action (World D) Unit
  unfolding replay_result
  replay_listed (err e) w = (err e, w)
  replay_listed (ok listed) w =
      let (outcomes, w') = replay_each listed nothing_yet w in (replay_result outcomes, w')

  replay_answer : Result Bool → Result (Unit {0})
  replay_answer (ok applied) = ok tt
  replay_answer (err e) = err e

  -- `replayHandler`
  unfoldable pub replay_handler : Flags → Action (World D) Unit
  unfolding replay_listed replay_answer
  replay_handler flags w =
      if str_eq flags.event_id ""
      then replay_listed (list_dead_letters D letters flags.schema flags.table w).0 w
      else (let (r, w') = replay_dead_letter D parse_lsn flags.event_id w in (replay_answer r, w'))

  -- The loop of `dropHandler`; the first failure ends it.
  after_drop : String → Result (Unit {0}) → Action (World D) Unit → Action (World D) Unit
  after_drop id (ok _) next w = next w
  after_drop id (err e) next w = (err (wrapf "drop %s: %w" (id ∷ []) e), w)

  unfoldable pub drop_each : List StoredLetter → Action (World D) Unit
  unfolding after_drop
  drop_each [] w = (ok tt, w)
  drop_each (letter ∷ letters) w =
      let (r, w') = drop_dead_letter D parse_lsn letter.event_id w in
      after_drop letter.event_id r (drop_each letters) w'

  drop_listed : Result (List StoredLetter) → Action (World D) Unit
  unfolding drop_each
  drop_listed (err e) w = (err e, w)
  drop_listed (ok listed) w = drop_each listed w

  -- `dropHandler`
  unfoldable pub drop_handler : Flags → Action (World D) Unit
  unfolding drop_listed
  drop_handler flags w =
      if str_eq flags.event_id ""
      then drop_listed (list_dead_letters D letters flags.schema flags.table w).0 w
      else drop_dead_letter D parse_lsn flags.event_id w

  list_answer : Result (List StoredLetter) → Result (Unit {0})
  list_answer (ok listed) = ok tt
  list_answer (err e) = err e

  -- The switch of `run`.
  unfoldable pub run_command : Command → Action (World D) Unit
  unfolding replay_handler drop_handler list_answer
  run_command command = elim command.action [
    | action_list ↦ λ (w : World D).
        (list_answer (list_dead_letters D letters command.flags.schema command.flags.table w).0, w)
    | action_replay ↦ replay_handler command.flags
    | action_drop ↦ drop_handler command.flags
  ]

  with_text : Result (Unit {0}) × World D → Result (Unit {0}) × World D
  with_text (r, w) = (map_error (wrapf "ensure destination metadata schema: %w" []) r, w)

  -- `run`, from the connection on
  unfoldable pub run : Command → Action (World D) Unit
  unfolding run_command with_text
  run command = (λ (w : World D). with_text (ensure_meta_schema D w)) >> run_command command
