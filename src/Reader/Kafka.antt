-- ===== src/Reader/Kafka.antt =====
-- `ensureKafkaTopicConfig` and `verifyKafkaDurability` of cmd/source-reader/main.go, and
-- `verifySinglePartition` of cmd/destination-writer/main.go. What Kafka's admin interface answers
-- comes in as values.
pub mod Durable
use pg_live_sync.Prelude.{
  ℕ, ◌==◌, ltb, String, str_eq, Bool, true, false, Option, none, some, List, [], ◌∷◌, length, itoa,
  if◌then◌else◌,
}
use pg_live_sync.Prelude.Int.{ℤ, pos, ltb_ℤ}
use pg_live_sync.Prelude.Numerals.{parse_int}
use pg_live_sync.Errclass.{Error, errorf, wrapf, Result, ok, err, ◌>>=◌, ◌>>◌}
use pg_live_sync.Action.{map_error}

abbrev pub minimum_kafka_brokers : ℕ
minimum_kafka_brokers = 3

abbrev pub minimum_kafka_replication : ℕ
minimum_kafka_replication = 3

abbrev pub minimum_kafka_in_sync_replicas : ℕ
minimum_kafka_in_sync_replicas = 2

-- The answer to CreateTopics for the one topic.
pub data CreateOutcome : Type 0 where
  created already_exists unlisted : CreateOutcome
  refused lookup_failed : Error → CreateOutcome

abbrev pub create_failed : String → Error → Error
create_failed topic e = wrapf "create Kafka topic %q: %w" (topic ∷ []) e

created_topic : String → CreateOutcome → Result (Unit {0})
created_topic topic created = ok tt
created_topic topic already_exists = ok tt
created_topic topic unlisted = ok tt
created_topic topic (refused e) = err (create_failed topic e)
created_topic topic (lookup_failed e) = err (create_failed topic e)

-- `ensureKafkaTopicConfig`
unfoldable pub ensure_topic_config : String → Result CreateOutcome → Result (Unit {0})
unfolding created_topic
ensure_topic_config topic answer =
    map_error (create_failed topic) answer >>= λ outcome. created_topic topic outcome

pub record Partition : Type 0 where
  pub number : ℕ
  pub in_sync : ℕ

-- The partitions in the order of their numbers, and their number of replicas as kadm gives it.
pub record TopicDetail : Type 0 where
  pub load_error : Option Error
  pub partitions : List Partition
  pub replicas : ℕ

pub record Metadata : Type 0 where
  pub brokers : ℕ
  pub topic : Option TopicDetail

pub record ConfigEntry : Type 0 where
  pub key : String
  pub value : String

pub record KafkaAdmin : Type 0 where
  pub create : Result CreateOutcome
  pub metadata : Result Metadata
  -- the answer, and in it that for the topic
  pub configs : Result (Result (List ConfigEntry))

unfoldable pub detail_of : String → Option TopicDetail → Result TopicDetail
detail_of topic none = err (errorf "Kafka topic %q was not found" (topic ∷ []))
detail_of topic (some detail) = elim detail.load_error [
  | none ↦ ok detail
  | some e ↦ err (wrapf "load Kafka topic %q: %w" (topic ∷ []) e)
]

unfoldable pub one_partition : String → TopicDetail → Result (Unit {0})
one_partition topic detail =
    if length detail.partitions == 1
    then ok tt
    else err (
        errorf
          "unsafe Kafka configuration: topic %q has %d partitions, want exactly 1 to preserve event order"
          (topic ∷ itoa (length detail.partitions) ∷ []))

unfoldable pub enough : Bool → Error → Result (Unit {0})
enough true e = err e
enough false e = ok tt

abbrev pub not_in_sync : String → Partition → Error
not_in_sync topic partition =
    errorf
      "unsafe Kafka configuration: topic %q partition %d has %d in-sync replicas, want at least %d"
      (topic
        ∷ itoa partition.number
        ∷ itoa partition.in_sync
        ∷ itoa minimum_kafka_in_sync_replicas
        ∷ [])

unfoldable pub all_in_sync : String → List Partition → Result (Unit {0})
unfolding enough
all_in_sync topic [] = ok tt
all_in_sync topic (partition ∷ partitions) =
    enough (ltb partition.in_sync minimum_kafka_in_sync_replicas) (not_in_sync topic partition)
    >> all_in_sync topic partitions

parsed_setting : String → Option ℤ → Result ℤ
parsed_setting value none = err (errorf "parse Kafka min.insync.replicas %q: %w" (value ∷ []))
parsed_setting value (some n) = ok n

-- The loop over the settings; a later entry counts for more than an earlier one.
unfoldable pub min_in_sync : List ConfigEntry → ℤ → Result ℤ
unfolding parsed_setting
min_in_sync [] found = ok found
min_in_sync (entry ∷ entries) found =
    (if str_eq entry.key "min.insync.replicas"
      then parsed_setting entry.value (parse_int entry.value)
      else ok found)
    >>= λ found'. min_in_sync entries found'

unfoldable pub check_setting : String → ℤ → Result (Unit {0})
check_setting topic found =
    if ltb_ℤ found (pos minimum_kafka_in_sync_replicas)
    then err (
        errorf "unsafe Kafka configuration: topic %q min.insync.replicas is %d, want at least %d"
          (topic ∷ []))
    else ok tt

unfoldable pub check_brokers : Metadata → Result (Unit {0})
unfolding enough
check_brokers metadata = enough (ltb metadata.brokers minimum_kafka_brokers) (
    errorf "unsafe Kafka configuration: %d brokers, want at least %d"
      (itoa metadata.brokers ∷ itoa minimum_kafka_brokers ∷ []))

unfoldable pub check_replicas : String → TopicDetail → Result (Unit {0})
unfolding enough
check_replicas topic detail = enough (ltb detail.replicas minimum_kafka_replication) (
    errorf "unsafe Kafka configuration: topic %q has replication factor %d, want at least %d"
      (topic ∷ itoa detail.replicas ∷ itoa minimum_kafka_replication ∷ []))

unfoldable pub check_topic : String → TopicDetail → Result (Unit {0})
unfolding one_partition check_replicas all_in_sync
check_topic topic detail =
    one_partition topic detail
    >> (check_replicas topic detail >> all_in_sync topic detail.partitions)

unfoldable pub check_entries : String → Result (List ConfigEntry) → Result (Unit {0})
unfolding min_in_sync check_setting
check_entries topic answer =
    map_error (wrapf "read Kafka topic config for %q: %w" (topic ∷ [])) answer >>= λ entries.
    min_in_sync entries (pos 0) >>= λ found. check_setting topic found

unfoldable pub check_settings : String → KafkaAdmin → Result (Unit {0})
unfolding check_entries
check_settings topic admin =
    map_error (wrapf "describe Kafka topic config for %q: %w" (topic ∷ [])) admin.configs
    >>= λ answer. check_entries topic answer

unfoldable pub check_detail : String → KafkaAdmin → TopicDetail → Result (Unit {0})
unfolding check_topic check_settings
check_detail topic admin detail = check_topic topic detail >> check_settings topic admin

unfoldable pub check_metadata : String → KafkaAdmin → Metadata → Result (Unit {0})
unfolding check_brokers detail_of check_detail
check_metadata topic admin metadata =
    check_brokers metadata
    >> (detail_of topic metadata.topic >>= λ detail. check_detail topic admin detail)

-- `verifyKafkaDurability`
unfoldable pub verify_kafka_durability : String → KafkaAdmin → Result (Unit {0})
unfolding check_metadata
verify_kafka_durability topic admin =
    map_error (wrapf "fetch Kafka metadata: %w" []) admin.metadata >>= λ metadata.
    check_metadata topic admin metadata

-- `verifySinglePartition` of the writer
unfoldable pub verify_single_partition : String → Result Metadata → Result (Unit {0})
unfolding detail_of one_partition
verify_single_partition topic answer =
    map_error (wrapf "fetch Kafka metadata for %q: %w" (topic ∷ [])) answer >>= λ metadata.
    detail_of topic metadata.topic >>= λ detail. one_partition topic detail
