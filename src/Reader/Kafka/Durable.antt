-- ===== src/Reader/Kafka/Durable.antt =====
-- What `verifyKafkaDurability` (cmd/source-reader/main.go) promises of a topic.
use pg_live_sync.Prelude.{
  ◌≤◌, ◌≡◌, refl, ap, ◌∙◌, inl, inr, Bool-cases, ltb, String, Bool, true, false, Option, none, some,
  List, [], ◌∷◌, All, length, arith,
}
use pg_live_sync.Prelude.Int.{ℤ, pos, ltb_ℤ}
use pg_live_sync.Errclass.{Error, wrapf, Result, ok, err, ok-injective, >>=-eq-ok, ◌>>=◌, ◌>>◌}
use mathlib.Core.Path.{subst}
use pg_live_sync.Action.{map_error}
use pg_live_sync.Action.Ends.{map_error-eq-ok}
use pg_live_sync.Reader.Kafka.{
  Partition, TopicDetail, Metadata, ConfigEntry, KafkaAdmin, minimum_kafka_in_sync_replicas,
  detail_of, one_partition, enough, not_in_sync, all_in_sync, min_in_sync, check_setting,
  check_brokers, check_replicas, check_topic, check_entries, check_settings, check_detail,
  check_metadata, verify_kafka_durability, verify_single_partition,
}

-- At least three brokers; the topic can be loaded, has one partition, at least three replicas,
-- at least two of them in sync, and waits for at least two of them by its settings.
pub record IsDurable (topic : String) (admin : KafkaAdmin) : Type 0 where
  pub metadata : Metadata
  pub detail : TopicDetail
  pub entries : List ConfigEntry
  pub found : ℤ
  pub answered : admin.metadata ≡ ok metadata
  pub brokers : 3 ≤ metadata.brokers
  pub listed : metadata.topic ≡ some detail
  pub loaded : detail.load_error ≡ none
  pub single : length detail.partitions ≡ 1
  pub replicas : 3 ≤ detail.replicas
  pub in_sync : All (λ (p : Partition). 2 ≤ p.in_sync) detail.partitions
  pub described : admin.configs ≡ ok (ok entries)
  pub setting : min_in_sync entries (pos 0) ≡ ok found
  pub large : ltb_ℤ found (pos 2) ≡ false

loaded_from :
    (topic : String) (detail : TopicDetail) (load_error : Option Error) {found : TopicDetail}
    → detail.load_error ≡ load_error
    → elim load_error [
      | none ↦ ok detail
      | some e ↦ err (wrapf "load Kafka topic %q: %w" (topic ∷ []) e)
    ]
      ≡ ok found
    → (some detail ≡ some found) × (found.load_error ≡ none)
loaded_from topic detail none at h =
    let same = ok-injective h in
    (ap some same, subst (λ (d : TopicDetail). d.load_error ≡ none) same at)
loaded_from topic detail (some e) at h = cc

detailed :
    (topic : String) (found : Option TopicDetail) {detail : TopicDetail}
    → detail_of topic found ≡ ok detail
    → (found ≡ some detail) × (detail.load_error ≡ none)
unfolding detail_of
detailed topic none h = cc
detailed topic (some detail) h = loaded_from topic detail detail.load_error refl h

passed : (b : Bool) (e : Error) → enough b e ≡ ok tt → b ≡ false
unfolding enough
passed true e h = cc
passed false e h = refl

single_partition :
    (topic : String) (detail : TopicDetail)
    → one_partition topic detail ≡ ok tt
    → length detail.partitions ≡ 1
unfolding one_partition
single_partition topic detail h = ground arith

synced :
    (topic : String) (partitions : List Partition)
    → all_in_sync topic partitions ≡ ok tt
    → All (λ (p : Partition). 2 ≤ p.in_sync) partitions
unfolding all_in_sync
synced topic [] h = tt
synced topic (partition ∷ partitions) h =
    let (_, now, later) =
      >>=-eq-ok
        (enough (ltb partition.in_sync minimum_kafka_in_sync_replicas)
          (not_in_sync topic partition))
        (λ _. all_in_sync topic partitions) h in
    (ground (arith, passed _ _ now), synced topic partitions later)

brokered : (metadata : Metadata) → check_brokers metadata ≡ ok tt → 3 ≤ metadata.brokers
unfolding check_brokers
brokered metadata h = ground (arith, passed _ _ h)

replicated :
    (topic : String) (detail : TopicDetail)
    → check_replicas topic detail ≡ ok tt
    → 3 ≤ detail.replicas
unfolding check_replicas
replicated topic detail h = ground (arith, passed _ _ h)

settled :
    (topic : String) (found : ℤ) → check_setting topic found ≡ ok tt → ltb_ℤ found (pos 2) ≡ false
unfolding check_setting
settled topic found h = elim (Bool-cases (ltb_ℤ found (pos 2))) [
  | inl small ↦ cc (let h' : err _ ≡ ok tt = rw small at h in h')
  | inr large ↦ large
]

-- A topic that `verifyKafkaDurability` accepts is durable.
pub verify_kafka_durability-IsDurable :
    (topic : String) (admin : KafkaAdmin)
    → verify_kafka_durability topic admin ≡ ok tt
    → IsDurable topic admin
unfolding verify_kafka_durability check_metadata check_detail check_topic check_settings
    check_entries
verify_kafka_durability-IsDurable topic admin h =
    let (metadata, answered, h1) =
      >>=-eq-ok (map_error _ admin.metadata) (check_metadata topic admin) h in
    let (_, brokers, h2) =
      >>=-eq-ok (check_brokers metadata)
        (λ _. detail_of topic metadata.topic >>= λ detail. check_detail topic admin detail) h1 in
    let (detail, listed, h3) =
      >>=-eq-ok (detail_of topic metadata.topic) (check_detail topic admin) h2 in
    let (_, whole, h4) =
      >>=-eq-ok (check_topic topic detail) (λ _. check_settings topic admin) h3 in
    let (_, single, h5) =
      >>=-eq-ok (one_partition topic detail)
        (λ _. check_replicas topic detail >> all_in_sync topic detail.partitions) whole in
    let (_, replicas, in_sync) =
      >>=-eq-ok (check_replicas topic detail) (λ _. all_in_sync topic detail.partitions) h5 in
    let (answer, described, h6) = >>=-eq-ok (map_error _ admin.configs) (check_entries topic) h4 in
    let (entries, read, h7) =
      >>=-eq-ok (map_error _ answer)
        (λ entries. min_in_sync entries (pos 0) >>= λ found. check_setting topic found) h6 in
    let (found, setting, large) =
      >>=-eq-ok (min_in_sync entries (pos 0)) (check_setting topic) h7 in
    record {
      metadata = metadata;
      detail = detail;
      entries = entries;
      found = found;
      answered = map_error-eq-ok _ _ answered;
      brokers = brokered metadata brokers;
      listed = (detailed topic metadata.topic listed).0;
      loaded = (detailed topic metadata.topic listed).1;
      single = single_partition topic detail single;
      replicas = replicated topic detail replicas;
      in_sync = synced topic detail.partitions in_sync;
      described = map_error-eq-ok _ _ described ∙ ap ok (map_error-eq-ok _ _ read);
      setting = setting;
      large = settled topic found large;
    }

-- A topic that `verifySinglePartition` accepts can be loaded and has one partition.
pub record IsSingle (topic : String) (answer : Result Metadata) : Type 0 where
  pub metadata : Metadata
  pub detail : TopicDetail
  pub answered : answer ≡ ok metadata
  pub listed : metadata.topic ≡ some detail
  pub loaded : detail.load_error ≡ none
  pub single : length detail.partitions ≡ 1

pub verify_single_partition-IsSingle :
    (topic : String) (answer : Result Metadata)
    → verify_single_partition topic answer ≡ ok tt
    → IsSingle topic answer
unfolding verify_single_partition
verify_single_partition-IsSingle topic answer h =
    let (metadata, answered, h1) =
      >>=-eq-ok (map_error _ answer)
        (λ metadata. detail_of topic metadata.topic >>= λ detail. one_partition topic detail) h in
    let (detail, listed, h2) =
      >>=-eq-ok (detail_of topic metadata.topic) (one_partition topic) h1 in
    record {
      metadata = metadata;
      detail = detail;
      answered = map_error-eq-ok _ _ answered;
      listed = (detailed topic metadata.topic listed).0;
      loaded = (detailed topic metadata.topic listed).1;
      single = single_partition topic detail h2;
    }
