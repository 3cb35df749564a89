-- ===== src/Scenarios/Writing.antt =====
-- Runs of cmd/destination-writer on the sample destination.
use pg_live_sync.Prelude.{◌≡◌, refl, true, false, none, some, [], ◌∷◌}
use pg_live_sync.Errclass.{ok}
use pg_live_sync.Destination.Repair.{Catalog}
use pg_live_sync.Writer.{
  finished, GroupState, Writer, Services, is_complete, close_group, handle_event, consume,
}
use pg_live_sync.Writer.Ordering.{IsOpen, IsRunning, Handled, handle_event-IsOpen}
use pg_live_sync.Writer.Durability.{IsDurable, close_group-IsDurable}
use pg_live_sync.Writer.Grouping.{received, new_group, waiting, consume_transaction}
use pg_live_sync.Scenarios.{sample_database, sample_world, first_event, second_event, good_round}
use pg_live_sync.Scenarios.Applying.{sample_parser, both}

abbrev pub sample_catalog : Catalog sample_database
sample_catalog = record {
  connect = ok tt;
  column = λ table column. ok none;
  enum = λ schema name. ok none;
  type_exists = λ schema name db. ok false;
  alter = λ statement db. ok db;
}

abbrev pub sample_services : Services sample_database
sample_services = record {
  parse_lsn = sample_parser;
  source = sample_catalog;
  commit_attempt = good_round;
  context_error = none;
  rollback = ok tt;
}

abbrev pub idle_writer : Writer sample_database
idle_writer = record {
  world = sample_world;
  group = none;
  committed = 7;
  applied = 0;
  duplicates = 0;
  dead_letters = 0;
}

-- The first of two events has arrived.
abbrev half_group : GroupState
half_group = record {
  txid = 42;
  count = 2;
  next_seq = 2;
  tx = true;
  last_record = 7;
  buffer = record { offset = 7; event = first_event } ∷ [];
}

abbrev busy_writer : Writer sample_database
busy_writer = record idle_writer { group = some half_group }

half_group-IsOpen : IsOpen (some half_group)
unfolding IsOpen IsRunning is_complete
half_group-IsOpen = ((refl, (refl, refl, tt), refl), refl)

consume_transaction_example :
    consume sample_database sample_services 7 both idle_writer
    ≡ finished sample_database sample_services
        (received 7 both (new_group 7 42 2))
        (record idle_writer { group = waiting 7 42 2 (first_event ∷ []) })
consume_transaction_example =
    consume_transaction sample_database sample_services 7 42 2 (first_event ∷ []) second_event
      idle_writer refl ((refl, refl, (refl, refl, tt)), (refl, (refl, tt)), refl)

close_group_example :
    IsDurable sample_database sample_services half_group busy_writer
      (close_group sample_database sample_services half_group busy_writer).1
close_group_example = close_group-IsDurable sample_database sample_services half_group busy_writer

handle_event_example :
    Handled busy_writer.group
      (handle_event sample_database sample_services 8 second_event busy_writer)
handle_event_example =
    handle_event-IsOpen sample_database sample_services 8 second_event busy_writer half_group-IsOpen
