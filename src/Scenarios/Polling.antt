-- ===== src/Scenarios/Polling.antt =====
-- The start of the destination writer and its polls: one that fails twice and then brings a record,
-- one that brings the next record, and one that fails for good.
use pg_live_sync.Prelude.{
  ◌≡◌, ◌≢◌, inl, inr, refl, ℕ, zero, suc, Option, none, some, List, [], ◌∷◌, true,
}
use pg_live_sync.Errclass.{Error, transport, Result, ok, err}
use pg_live_sync.Writer.{consume, shutdown}
use pg_live_sync.Writer.Polling.{KafkaRecord, Polled, PollRound, brought, poll_loop}
use pg_live_sync.Writer.Polling.Outages.{numbered, Brings, goes_on, poll_loop-consume}
use pg_live_sync.Writer.Polling.GivingUp.{poll_loop_outage}
use pg_live_sync.Writer.Boot.{WriterConfig, Surroundings, boot}
use pg_live_sync.Writer.Boot.Ready.{IsReady, boot-IsReady}
use pg_live_sync.Scenarios.{sample_database, sample-Laws, sample_world, first_event, second_event}
use pg_live_sync.Scenarios.Applying.{sample_parser, both}
use pg_live_sync.Scenarios.Writing.{sample_services, idle_writer}
use pg_live_sync.Scenarios.Snapshotting.{
  sample_source, sample_layout, sample_states, sample_view, sample-KeepsState,
}
use pg_live_sync.Scenarios.Booting.{sample_admin}

abbrev broker_down : Polled
broker_down = record { cancelled = none; errors = transport "broker is down" ∷ []; records = [] }

abbrev record_polled : List KafkaRecord → Polled
record_polled records = record { cancelled = none; errors = []; records = records }

-- The attempt with the number 1 fails, the next one brings the record.
abbrev second_time : List KafkaRecord → ℕ → Polled
second_time records zero = broker_down
second_time records (suc zero) = broker_down
second_time records (suc (suc i)) = record_polled records

abbrev sample_rounds : List PollRound
sample_rounds =
    record {
      first = broker_down;
      again = second_time ((7, ok first_event) ∷ []);
      waits = λ i. none;
      ended = none;
    }
    ∷ record {
      first = record_polled ((8, ok second_event) ∷ []);
      again = λ i. broker_down;
      waits = λ i. none;
      ended = none;
    }
    ∷ []

rounds-Brings : Brings sample_rounds (numbered 7 both)
unfolding brought pg_live_sync.Retry.do_retry
rounds-Brings = (
  (7, ok first_event) ∷ [],
  (8, ok second_event) ∷ [],
  refl,
  refl,
  ((8, ok second_event) ∷ [], [], refl, refl, refl),
)

poll_loop-consume_example :
    poll_loop sample_database sample_services sample_rounds idle_writer
    ≡ goes_on sample_database sample_services
        (consume sample_database sample_services 7 both idle_writer)
poll_loop-consume_example =
    poll_loop-consume sample_database sample_services sample_rounds 7 both idle_writer rounds-Brings

abbrev long_outage : PollRound
long_outage = record {
  first = broker_down;
  again = λ i. broker_down;
  waits = λ i. none;
  ended = none;
}

some_error : transport "broker is down" ∷ [] ≢ []
some_error h = cc

poll_loop_outage_example :
    poll_loop sample_database sample_services (long_outage ∷ sample_rounds) idle_writer
    ≡ (some (ok tt), shutdown sample_database sample_services idle_writer)
poll_loop_outage_example =
    poll_loop_outage sample_database sample_services long_outage sample_rounds idle_writer refl refl
      (λ i. inr some_error) refl

abbrev sample_surroundings : Surroundings
sample_surroundings = record {
  connected = ok tt;
  opened = ok tt;
  pinged = ok tt;
  metadata = sample_admin.metadata;
  waited = ok tt;
  view = sample_view;
}

abbrev sample_config : WriterConfig
sample_config = record {
  destination_dsn = "";
  source_dsn = "";
  slot = "slot";
  publication = "pub";
  kafka_brokers = "localhost:9092" ∷ [];
  kafka_topic = "live.users";
  kafka_group = "live-destination-v1";
}

boot_ok :
    (boot sample_database sample_parser sample_source sample_layout sample_states
      sample_surroundings sample_config sample_world).0
    ≡ ok tt
unfolding boot pg_live_sync.Destination.Schema.ensure_meta_schema
    pg_live_sync.Reader.Kafka.verify_single_partition
    pg_live_sync.Destination.Snapshot.Boot.boot_snapshot
    pg_live_sync.Destination.Snapshot.Boot.completed
    pg_live_sync.Destination.Snapshot.Boot.verify_not_corrupt
    pg_live_sync.Destination.Snapshot.Boot.mark_completed
    pg_live_sync.Destination.Snapshot.Boot.equal_fold pg_live_sync.Destination.DeadLetters.run
    pg_live_sync.Destination.Snapshot.Copying.run_snapshot pg_live_sync.Destination.Queries.read_all
    pg_live_sync.Destination.DeadLetters.in_tx pg_live_sync.Destination.Snapshot.key_copied
    pg_live_sync.Prelude.contains_string pg_live_sync.Destination.Snapshot.common
    pg_live_sync.Destination.Snapshot.fill_row pg_live_sync.Destination.Snapshot.verify_row
    pg_live_sync.Prelude.lookup pg_live_sync.Prelude.insert
    pg_live_sync.Destination.Snapshot.upsert_snapshot_row pg_live_sync.Destination.Rows.verify_ident
    pg_live_sync.Destination.Rows.transcode_row pg_live_sync.Destination.Snapshot.key_of
    pg_live_sync.Prelude.sort_strings pg_live_sync.Prelude.insert_sorted
    pg_live_sync.Prelude.str_leb pg_live_sync.Destination.Columns.table_columns
    pg_live_sync.Destination.Apply.exec_with_poison pg_live_sync.Destination.Columns.is_fresh
    pg_live_sync.Destination.Columns.types_of pg_live_sync.Destination.Queries.at_end
    pg_live_sync.Destination.Rows.append_numbered pg_live_sync.Destination.Rows.is_reserved
    pg_live_sync.Destination.Snapshot.Copying.copy_row
    pg_live_sync.Destination.Snapshot.Copying.copy_rows
    pg_live_sync.Destination.Snapshot.Copying.copy_selected
    pg_live_sync.Destination.Snapshot.Copying.copy_table
    pg_live_sync.Destination.Snapshot.Copying.copy_tables
    pg_live_sync.Destination.Snapshot.Copying.destination_primary_key
    pg_live_sync.Destination.Snapshot.Copying.found_key
    pg_live_sync.Destination.Snapshot.Copying.load_tables
    pg_live_sync.Destination.Snapshot.key_in_row pg_live_sync.Destination.Snapshot.select_sql
    pg_live_sync.Destination.Snapshot.text_pointer pg_live_sync.Destination.Sql.double_char
    pg_live_sync.Destination.Sql.ident_rest pg_live_sync.Destination.Sql.ident_start
    pg_live_sync.Destination.Sql.is_ident pg_live_sync.Destination.Sql.qualified
    pg_live_sync.Destination.Sql.quote_ident pg_live_sync.Errclass.permanentf
    pg_live_sync.Prelude.delete pg_live_sync.Prelude.concat pg_live_sync.Prelude.join
boot_ok = refl

boot-IsReady_example :
    IsReady sample_source sample_layout sample_states sample_config sample_surroundings sample_world
      (boot sample_database sample_parser sample_source sample_layout sample_states
        sample_surroundings sample_config sample_world).1
boot-IsReady_example =
    boot-IsReady sample-Laws sample_parser sample_source sample_layout sample_states
      sample-KeepsState sample_surroundings sample_config sample_world boot_ok
