-- ===== src/Scenarios/Snapshotting.antt =====
-- Runs of the initial snapshot: a published table of two rows, of which the destination has the
-- columns, and a source whose last transaction fails to close.
use pg_live_sync.Prelude.{
  ◌≡◌, ◌⊎◌, refl, ℕ, ◌+◌, ◌*◌, String, Bool, true, false, ◌||◌, Option, none, some, List, [], ◌∷◌,
  ◌++◌, if◌then◌else◌, arith,
}
use mathlib.Core.Path.{subst}
use pg_live_sync.Errclass.{transport, wrapf, Result, ok, err, ok-injective}
use pg_live_sync.Destination.Database.{Statement, mark_snapshot_done}
use pg_live_sync.Destination.Columns.{World}
use pg_live_sync.Destination.Queries.{full}
use pg_live_sync.Destination.Snapshot.{Source, Layout, PublishedTable, string_value, string_pointer}
use pg_live_sync.Destination.Snapshot.Copying.{run_snapshot}
use pg_live_sync.Destination.Snapshot.Runs.{
  SnapshotTaken, run_snapshot-SnapshotTaken, run_snapshot_failed,
}
use pg_live_sync.Destination.Snapshot.Boot.{
  States, SlotView, Poll, poll_interval, boot_snapshot, wait_for_slot,
}
use pg_live_sync.Destination.Snapshot.Boot.Waiting.{Ended, wait_for_slot-Ended}
use pg_live_sync.Destination.Snapshot.Boot.Ready.{KeepsState, Seeded, boot_snapshot-Seeded}
use pg_live_sync.Scenarios.{sample_database, sample-Laws, sample_world, Contents}
use pg_live_sync.Scenarios.Applying.{sample_parser}

abbrev pub sample_source : Source
sample_source = record {
  connect = ok tt;
  restart_lsn = ok "0/8";
  published = full (record { schema = "public"; name = "users" } ∷ []);
  begin_tx = ok tt;
  now = ok 500;
  present = λ table columns. full ("id" ∷ "name" ∷ []);
  select = λ query. full (
      (string_value "1" ∷ string_value "Ada" ∷ [])
      ∷ (string_value "2" ∷ string_pointer none ∷ [])
      ∷ []);
  commit_tx = ok tt;
}

abbrev unclosed_source : Source
unclosed_source = record sample_source { commit_tx = err (transport "connection lost") }

abbrev pub sample_layout : Layout sample_database
sample_layout = record {
  columns = λ table db. full ("id" ∷ "name" ∷ []);
  primary_key = λ table db. full ("id" ∷ []);
}

abbrev marks_done : Statement → Bool
marks_done mark_snapshot_done = true
marks_done _ = false

abbrev done_in : List Statement → Bool
done_in [] = false
done_in (statement ∷ log) = marks_done statement || done_in log

abbrev state_of : Bool → Option String
state_of true = some "done"
state_of false = none

abbrev pub sample_states : States sample_database
sample_states = record { snapshot_state = λ db. ok (state_of (done_in db.log)) }

done_at_end : (log : List Statement) → done_in (log ++ mark_snapshot_done ∷ []) ≡ true
done_at_end [] = refl
done_at_end (statement ∷ log) = ground (arith, done_at_end log)

pub sample-KeepsState : KeepsState sample_database sample_states
sample-KeepsState = record {
  marked = λ db at.
      subst (λ (d : Contents). ok (state_of (done_in d.log)) ≡ ok (some "done")) (ok-injective at)
        (rw (done_at_end db.log) refl);
}

snapshot_ok :
    (run_snapshot sample_database sample_parser sample_source sample_layout "slot" "pub"
      sample_world).0
    ≡ ok tt
unfolding run_snapshot pg_live_sync.Destination.Queries.read_all
    pg_live_sync.Destination.DeadLetters.in_tx pg_live_sync.Destination.Snapshot.key_copied
    pg_live_sync.Prelude.contains_string pg_live_sync.Destination.Snapshot.common
    pg_live_sync.Destination.Snapshot.fill_row pg_live_sync.Destination.Snapshot.verify_row
    pg_live_sync.Prelude.lookup pg_live_sync.Prelude.insert
    pg_live_sync.Destination.Snapshot.upsert_snapshot_row pg_live_sync.Destination.Rows.verify_ident
    pg_live_sync.Destination.Rows.transcode_row pg_live_sync.Destination.Snapshot.key_of
    pg_live_sync.Prelude.sort_strings pg_live_sync.Prelude.insert_sorted
    pg_live_sync.Prelude.str_leb pg_live_sync.Destination.Columns.table_columns
    pg_live_sync.Destination.Apply.exec_with_poison pg_live_sync.Destination.Columns.is_fresh
    pg_live_sync.Destination.Columns.types_of pg_live_sync.Destination.Queries.at_end
    pg_live_sync.Destination.Rows.append_numbered pg_live_sync.Destination.Rows.is_reserved
    pg_live_sync.Destination.Snapshot.Copying.copy_row
    pg_live_sync.Destination.Snapshot.Copying.copy_rows
    pg_live_sync.Destination.Snapshot.Copying.copy_selected
    pg_live_sync.Destination.Snapshot.Copying.copy_table
    pg_live_sync.Destination.Snapshot.Copying.copy_tables
    pg_live_sync.Destination.Snapshot.Copying.destination_primary_key
    pg_live_sync.Destination.Snapshot.Copying.found_key
    pg_live_sync.Destination.Snapshot.Copying.load_tables
    pg_live_sync.Destination.Snapshot.key_in_row pg_live_sync.Destination.Snapshot.select_sql
    pg_live_sync.Destination.Snapshot.text_pointer pg_live_sync.Destination.Sql.double_char
    pg_live_sync.Destination.Sql.ident_rest pg_live_sync.Destination.Sql.ident_start
    pg_live_sync.Destination.Sql.is_ident pg_live_sync.Destination.Sql.qualified
    pg_live_sync.Destination.Sql.quote_ident pg_live_sync.Errclass.permanentf
    pg_live_sync.Prelude.delete pg_live_sync.Prelude.concat pg_live_sync.Prelude.join
snapshot_ok = refl

run_snapshot-SnapshotTaken_example :
    SnapshotTaken sample_source sample_layout sample_world.db
      (run_snapshot sample_database sample_parser sample_source sample_layout "slot" "pub"
        sample_world).1.db
run_snapshot-SnapshotTaken_example =
    run_snapshot-SnapshotTaken sample-Laws sample_parser sample_source sample_layout "slot" "pub"
      sample_world snapshot_ok

snapshot_unclosed :
    (run_snapshot sample_database sample_parser unclosed_source sample_layout "slot" "pub"
      sample_world).0
    ≡ err (wrapf "commit source snapshot transaction: %w" [] (transport "connection lost"))
unfolding run_snapshot pg_live_sync.Destination.Queries.read_all
    pg_live_sync.Destination.DeadLetters.in_tx pg_live_sync.Destination.Snapshot.key_copied
    pg_live_sync.Prelude.contains_string pg_live_sync.Destination.Snapshot.common
    pg_live_sync.Destination.Snapshot.fill_row pg_live_sync.Destination.Snapshot.verify_row
    pg_live_sync.Prelude.lookup pg_live_sync.Prelude.insert
    pg_live_sync.Destination.Snapshot.upsert_snapshot_row pg_live_sync.Destination.Rows.verify_ident
    pg_live_sync.Destination.Rows.transcode_row pg_live_sync.Destination.Snapshot.key_of
    pg_live_sync.Prelude.sort_strings pg_live_sync.Prelude.insert_sorted
    pg_live_sync.Prelude.str_leb pg_live_sync.Destination.Columns.table_columns
    pg_live_sync.Destination.Apply.exec_with_poison pg_live_sync.Destination.Columns.is_fresh
    pg_live_sync.Destination.Columns.types_of pg_live_sync.Destination.Queries.at_end
    pg_live_sync.Destination.Rows.append_numbered pg_live_sync.Destination.Rows.is_reserved
    pg_live_sync.Destination.Snapshot.Copying.copy_row
    pg_live_sync.Destination.Snapshot.Copying.copy_rows
    pg_live_sync.Destination.Snapshot.Copying.copy_selected
    pg_live_sync.Destination.Snapshot.Copying.copy_table
    pg_live_sync.Destination.Snapshot.Copying.copy_tables
    pg_live_sync.Destination.Snapshot.Copying.destination_primary_key
    pg_live_sync.Destination.Snapshot.Copying.found_key
    pg_live_sync.Destination.Snapshot.Copying.load_tables
    pg_live_sync.Destination.Snapshot.key_in_row pg_live_sync.Destination.Snapshot.select_sql
    pg_live_sync.Destination.Snapshot.text_pointer pg_live_sync.Destination.Sql.double_char
    pg_live_sync.Destination.Sql.ident_rest pg_live_sync.Destination.Sql.ident_start
    pg_live_sync.Destination.Sql.is_ident pg_live_sync.Destination.Sql.qualified
    pg_live_sync.Destination.Sql.quote_ident pg_live_sync.Errclass.permanentf
    pg_live_sync.Prelude.delete pg_live_sync.Prelude.concat pg_live_sync.Prelude.join
snapshot_unclosed = refl

run_snapshot_failed_example :
    let after =
      (run_snapshot sample_database sample_parser unclosed_source sample_layout "slot" "pub"
        sample_world).1.db in
    (after ≡ sample_world.db) ⊎ SnapshotTaken unclosed_source sample_layout sample_world.db after
run_snapshot_failed_example =
    run_snapshot_failed sample-Laws sample_parser unclosed_source sample_layout "slot" "pub"
      sample_world snapshot_unclosed

abbrev pub sample_view : SlotView
sample_view = record { connect = ok tt; slot_exists = ok true }

boot_ok :
    (boot_snapshot sample_database sample_parser sample_source sample_layout sample_states "slot"
      "pub"
      (ok tt)
      sample_view
      sample_world).0
    ≡ ok tt
unfolding boot_snapshot pg_live_sync.Destination.Snapshot.Boot.completed
    pg_live_sync.Destination.Snapshot.Boot.verify_not_corrupt
    pg_live_sync.Destination.Snapshot.Boot.mark_completed
    pg_live_sync.Destination.Snapshot.Boot.equal_fold pg_live_sync.Destination.DeadLetters.run
    run_snapshot pg_live_sync.Destination.Queries.read_all
    pg_live_sync.Destination.DeadLetters.in_tx pg_live_sync.Destination.Snapshot.key_copied
    pg_live_sync.Prelude.contains_string pg_live_sync.Destination.Snapshot.common
    pg_live_sync.Destination.Snapshot.fill_row pg_live_sync.Destination.Snapshot.verify_row
    pg_live_sync.Prelude.lookup pg_live_sync.Prelude.insert
    pg_live_sync.Destination.Snapshot.upsert_snapshot_row pg_live_sync.Destination.Rows.verify_ident
    pg_live_sync.Destination.Rows.transcode_row pg_live_sync.Destination.Snapshot.key_of
    pg_live_sync.Prelude.sort_strings pg_live_sync.Prelude.insert_sorted
    pg_live_sync.Prelude.str_leb pg_live_sync.Destination.Columns.table_columns
    pg_live_sync.Destination.Apply.exec_with_poison pg_live_sync.Destination.Columns.is_fresh
    pg_live_sync.Destination.Columns.types_of pg_live_sync.Destination.Queries.at_end
    pg_live_sync.Destination.Rows.append_numbered pg_live_sync.Destination.Rows.is_reserved
    pg_live_sync.Destination.Snapshot.Copying.copy_row
    pg_live_sync.Destination.Snapshot.Copying.copy_rows
    pg_live_sync.Destination.Snapshot.Copying.copy_selected
    pg_live_sync.Destination.Snapshot.Copying.copy_table
    pg_live_sync.Destination.Snapshot.Copying.copy_tables
    pg_live_sync.Destination.Snapshot.Copying.destination_primary_key
    pg_live_sync.Destination.Snapshot.Copying.found_key
    pg_live_sync.Destination.Snapshot.Copying.load_tables
    pg_live_sync.Destination.Snapshot.key_in_row pg_live_sync.Destination.Snapshot.select_sql
    pg_live_sync.Destination.Snapshot.text_pointer pg_live_sync.Destination.Sql.double_char
    pg_live_sync.Destination.Sql.ident_rest pg_live_sync.Destination.Sql.ident_start
    pg_live_sync.Destination.Sql.is_ident pg_live_sync.Destination.Sql.qualified
    pg_live_sync.Destination.Sql.quote_ident pg_live_sync.Errclass.permanentf
    pg_live_sync.Prelude.delete pg_live_sync.Prelude.concat pg_live_sync.Prelude.join
boot_ok = refl

boot_snapshot-Seeded_example :
    (sample_view.slot_exists ≡ ok true)
    × Seeded sample_source sample_layout sample_states
        (ok tt)
        sample_world.db
        (boot_snapshot sample_database sample_parser sample_source sample_layout sample_states
          "slot" "pub"
          (ok tt)
          sample_view
          sample_world).1.db
boot_snapshot-Seeded_example =
    boot_snapshot-Seeded sample-Laws sample_parser sample_source sample_layout sample_states
      sample-KeepsState "slot" "pub" (ok tt) sample_view sample_world boot_ok

-- The slot is never there.
abbrev no_slot : ℕ → Poll
no_slot k = record { at = k * poll_interval; answer = ok none; cancelled = none }

wait_for_slot-Ended_example : Ended (0 + 5000) no_slot (wait_for_slot "slot" 5000 0 (ok tt) no_slot)
wait_for_slot-Ended_example =
    wait_for_slot-Ended "slot" 5000 0 (ok tt) no_slot (omega arith) (λ k. omega arith)
