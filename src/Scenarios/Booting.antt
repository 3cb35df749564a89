-- ===== src/Scenarios/Booting.antt =====
-- The start of the source reader, on sample answers of Kafka and of the source.
use pg_live_sync.Prelude.{
  ℕ, ◌≡◌, refl, String, Bool, true, false, Option, none, some, List, [], ◌∷◌,
}
use pg_live_sync.Errclass.{ok}
use pg_live_sync.Destination.Upserts.{LsnParser}
use pg_live_sync.Destination.Queries.{full}
use pg_live_sync.Reader.{Reader}
use pg_live_sync.Reader.Kafka.{
  already_exists, KafkaAdmin, verify_kafka_durability, ensure_topic_config,
}
use pg_live_sync.Reader.Kafka.Durable.{IsDurable, verify_kafka_durability-IsDurable}
use pg_live_sync.Reader.Slots.{SourceServer, fence_key, to_int64, fnv64a}
use pg_live_sync.Reader.Boot.{ReaderConfig, KafkaClient, locked, started, reader_at, boot}
use pg_live_sync.Reader.Boot.Fencing.{IsFenced, boot-IsFenced}
use pg_live_sync.Reader.Boot.Positions.{StartsWell, boot-StartsWell}

abbrev pub sample_admin : KafkaAdmin
sample_admin = record {
  create = ok already_exists;
  metadata = ok (record {
    brokers = 3;
    topic = some (record {
      load_error = none;
      partitions = record { number = 0; in_sync = 3 } ∷ [];
      replicas = 3;
    });
  });
  configs = ok (
      ok (
        record { key = "retention.ms"; value = "604800000" }
        ∷ record { key = "min.insync.replicas"; value = "2" }
        ∷ []));
}

admin_passes : verify_kafka_durability "live.users" sample_admin ≡ ok tt
unfolding verify_kafka_durability pg_live_sync.Prelude.Numerals.parse_int
admin_passes = refl

verify_kafka_durability-IsDurable_example : IsDurable "live.users" sample_admin
verify_kafka_durability-IsDurable_example =
    verify_kafka_durability-IsDurable "live.users" sample_admin admin_passes

-- The key of the default slot's lock: FNV-1a of "a" is 0xaf63dc4c8601ec8c.
fence_key_a : fence_key "a" ≡ to_int64 0xaf63dc4c8601ec8c
unfolding fence_key
fence_key_a = refl

abbrev sample_lsn : LsnParser
sample_lsn text = some 16

abbrev position_of : Bool → Option String
position_of true = some "0/10"
position_of false = none

-- A source with or without the slot.
abbrev sample_server : Bool → SourceServer
sample_server present = record {
  fence_connection = ok tt;
  slot_connection = ok tt;
  check_connection = ok tt;
  identity_connection = ok tt;
  creating_connection = ok tt;
  streaming_connection = ok tt;
  try_lock = λ key. ok true;
  slot_position = λ slot. ok (position_of present);
  restart_point = λ slot. ok "0/8";
  wal_kept = λ point. ok true;
  published_tables = λ publication.
      full
        (record { schema = "public"; table = "users"; mode = "d"; pk = "id" ∷ []; ri = [] } ∷ []);
  create_slot = λ slot. ok "0/10";
  start_replication = λ slot lsn publication. ok tt;
}

abbrev sample_client : KafkaClient
sample_client = record { opened = ok tt; pinged = ok tt; admin = sample_admin }

abbrev sample_config : ReaderConfig
sample_config = record {
  sql_dsn = "";
  replication_dsn = "";
  slot = "live_demo_slot";
  publication = "live_demo_pub";
  kafka_brokers = "localhost:9092" ∷ [];
  kafka_topic = "live.users";
}

abbrev users_key : List (String × List String)
users_key = ("public.users", "id" ∷ []) ∷ []

resumed : boot (sample_server true) sample_lsn sample_client sample_config [] ≡ (
  ok (reader_at users_key 16),
  started "live_demo_slot" 16 ∷ locked (fence_key "live_demo_slot") ∷ [],
)
unfolding boot pg_live_sync.Destination.Sql.is_ident ensure_topic_config verify_kafka_durability
    pg_live_sync.Prelude.Numerals.parse_int pg_live_sync.Reader.Slots.find_slot_lsn
    pg_live_sync.Reader.Slots.verify_slot_recoverable pg_live_sync.Reader.Slots.discover
    pg_live_sync.Reader.Identity.discover_identity pg_live_sync.Destination.Queries.at_end
    pg_live_sync.Prelude.insert pg_live_sync.Prelude.concat
resumed = refl

boot-StartsWell_example :
    IsDurable "live.users" sample_admin
    × StartsWell
        (sample_server true)
        sample_lsn
        "live_demo_slot"
        []
        (reader_at users_key 16)
        (boot (sample_server true) sample_lsn sample_client sample_config []).1
boot-StartsWell_example =
    boot-StartsWell (sample_server true) sample_lsn sample_client sample_config []
      (reader_at users_key 16) (λ i. (resumed i).0)

boot-IsFenced_example :
    IsFenced (boot (sample_server false) sample_lsn sample_client sample_config []).1
boot-IsFenced_example =
    boot-IsFenced (sample_server false) sample_lsn sample_client sample_config [] tt
