-- ===== src/Observer.antt =====
-- internal/destination/observer.go: how far the writer is behind Kafka. What Kafka's admin interface
-- answers comes in as values; -1 stands for an unknown number, as in the code.
pub mod Lag
use pg_live_sync.Prelude.{
  ℕ, String, str_eq, Bool, true, false, not, ◌&&◌, Option, none, some, List, [], ◌∷◌, if◌then◌else◌,
}
use pg_live_sync.Prelude.Int.{ℤ, pos, negsuc, ltb_ℤ, ◌-ℤ◌}
use pg_live_sync.Prelude.Numerals.{parse_int}
use pg_live_sync.Errclass.{Error, Result, ok, err, ◌>>=◌}
use pg_live_sync.Reader.Kafka.{ConfigEntry}

abbrev pub unknown : ℤ
unknown = negsuc 0

-- An offset of the one partition, as it is listed or committed.
pub record ListedOffset : Type 0 where
  pub load_error : Option Error
  pub offset : ℤ

pub record OffsetAnswers : Type 0 where
  pub end_offsets : Result (Option ListedOffset)
  pub start_offsets : Result (Option ListedOffset)
  pub commits : Result (Option ListedOffset)
  -- the answer, and in it that for the topic
  pub configs : Result (Result (List ConfigEntry))

-- The metrics line.
pub record Metrics : Type 0 where
  pub log_start : ℤ
  pub log_end : ℤ
  pub produced : ℤ
  pub committed : ℤ
  pub consumed : ℤ
  pub lag : ℤ
  pub retention : ℤ
  -- the alarm that records are lost
  pub outran : Bool

loaded_offset : Option Error → ℤ → ℤ × Bool
loaded_offset none offset = (offset, true)
loaded_offset (some e) offset = (unknown, false)

-- `offsetOf`
unfoldable pub offset_of : Option ListedOffset → ℤ × Bool
unfolding loaded_offset
offset_of none = (unknown, false)
offset_of (some listed) = loaded_offset listed.load_error listed.offset

parsed_retention : Option ℤ → ℤ
parsed_retention none = pos 0
parsed_retention (some n) = n

-- The first setting of that name counts.
unfoldable pub retention_setting : List ConfigEntry → ℤ
unfolding parsed_retention
retention_setting [] = pos 0
retention_setting (entry ∷ entries) =
    let rest = retention_setting entries in
    if str_eq entry.key "retention.ms" then parsed_retention (parse_int entry.value) else rest

-- `topicRetention`
unfoldable pub topic_retention : Result (Result (List ConfigEntry)) → ℤ
unfolding retention_setting
topic_retention (err e) = pos 0
topic_retention (ok (err e)) = pos 0
topic_retention (ok (ok entries)) = retention_setting entries

-- produced, consumed and lag
pub record Distances : Type 0 where
  pub produced : ℤ
  pub consumed : ℤ
  pub lag : ℤ

abbrev unmeasured : Distances
unmeasured = record { produced = unknown; consumed = unknown; lag = unknown }

with_committed : ℤ → ℤ → ℤ → Distances
with_committed start end committed =
    if ltb_ℤ committed (pos 0) then record unmeasured { produced = end -ℤ start } else record {
      produced = end -ℤ start;
      consumed = committed -ℤ start;
      lag = if ltb_ℤ end committed then unknown else end -ℤ committed;
    }

unfoldable pub distances : ℤ × Bool → ℤ × Bool → ℤ → Distances
unfolding with_committed
distances (start, true) (end, true) committed =
    if ltb_ℤ end start then unmeasured else with_committed start end committed
distances (start, false) end committed = unmeasured
distances (start, true) (end, false) committed = unmeasured

-- `RetentionOutranConsumption`
unfoldable pub retention_outran_consumption : ℤ → ℤ → Bool
retention_outran_consumption committed start =
    not (ltb_ℤ committed (pos 0)) && ltb_ℤ committed start

-- `KafkaLagForDemo`
unfoldable pub kafka_lag_for_demo : ℤ → ℤ → ℤ
kafka_lag_for_demo produced consumed =
    if ltb_ℤ produced (pos 0)
    then unknown
    else if ltb_ℤ consumed (pos 0)
    then unknown
    else if ltb_ℤ produced consumed
    then unknown
    else produced -ℤ consumed

measured : ℤ × Bool → ℤ × Bool → ℤ → ℤ → Metrics
unfolding distances retention_outran_consumption
measured start end committed retention =
    let d = distances start end committed in
    record {
      log_start = start.0;
      log_end = end.0;
      produced = d.produced;
      committed = committed;
      consumed = d.consumed;
      lag = d.lag;
      retention = retention;
      outran = start.1 && retention_outran_consumption committed start.0;
    }

-- `logMetrics`; an error is a warning instead of the metrics.
unfoldable pub log_metrics : OffsetAnswers → Result Metrics
unfolding measured offset_of topic_retention
log_metrics answers = answers.end_offsets >>= λ end. answers.start_offsets >>= λ start.
    answers.commits >>= λ commits. ok (
      measured (offset_of start) (offset_of end) (offset_of commits).0
        (topic_retention answers.configs))
