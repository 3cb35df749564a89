-- ===== src/Writer/Boot/Ready.antt =====
-- What holds before cmd/destination-writer/main.go polls Kafka for the first time.
use pg_live_sync.Prelude.{◌≡◌, true, []}
use pg_live_sync.Errclass.{wrapf, ok}
use pg_live_sync.Action.{map_error}
use pg_live_sync.Action.Ends.{Ends-bind, Ends-check}
use pg_live_sync.Destination.Database.{Database}
use pg_live_sync.Destination.Database.Laws.{Laws}
use pg_live_sync.Destination.Columns.{World}
use pg_live_sync.Destination.Upserts.{LsnParser}
use pg_live_sync.Destination.Schema.{ensure_meta_schema}
use pg_live_sync.Destination.Snapshot.{Source, Layout}
use pg_live_sync.Destination.Snapshot.Boot.{States}
use pg_live_sync.Destination.Snapshot.Boot.Ready.{KeepsState, Seeded, boot_snapshot-Seeded}
use pg_live_sync.Reader.Kafka.{verify_single_partition}
use pg_live_sync.Reader.Kafka.Durable.{IsSingle, verify_single_partition-IsSingle}
use pg_live_sync.Writer.Boot.{WriterConfig, Surroundings, boot}

module _ {D : Database} (source : Source) (layout : Layout D) (states : States D) where
  -- The topic keeps the order of the events, the slot exists, and the destination, once its own
  -- tables are there, holds the snapshot.
  abbrev pub IsReady : WriterConfig → Surroundings → World D → World D → Type 0
  IsReady config around before after =
      ((ensure_meta_schema D before).0 ≡ ok tt)
      × IsSingle config.kafka_topic around.metadata
      × (around.view.slot_exists ≡ ok true)
      × Seeded source layout states around.waited (ensure_meta_schema D before).1.db after.db

module _ {D : Database} (laws : Laws D) (parse_lsn : LsnParser) (source : Source)
    (layout : Layout D) (states : States D) where
  -- A writer that starts without an error has created its own tables, reads from a topic with
  -- one partition, and finds the slot; and the destination holds the snapshot, taken before and
  -- left alone, or taken now after the wait for the slot.
  pub boot-IsReady :
      (keeps : KeepsState D states) (around : Surroundings) (config : WriterConfig) (w : World D)
      → (boot D parse_lsn source layout states around config w).0 ≡ ok tt
      → IsReady source layout states config around w
          (boot D parse_lsn source layout states around config w).1
  unfolding boot
  boot-IsReady keeps around config w h =
      (Ends-check {Q = λ _ w'. IsReady source layout states config around w w'}
          (map_error (wrapf "connect to destination PostgreSQL: %w" []) around.connected) _ w
          λ _ _. Ends-bind (ensure_meta_schema D) _ w λ _ made.
            Ends-check (map_error (wrapf "create Kafka consumer: %w" []) around.opened) _ _ λ _ _.
              Ends-check (map_error (wrapf "connect to Kafka: %w" []) around.pinged) _ _ λ _ _.
                Ends-check (verify_single_partition config.kafka_topic around.metadata) _ _
                  λ _ single. record {
                    after = λ booted.
                        let (slot, seeded) =
                          boot_snapshot-Seeded laws parse_lsn source layout states keeps config.slot
                            config.publication around.waited around.view (ensure_meta_schema D w).1
                            booted in
                        (
                          made,
                          verify_single_partition-IsSingle config.kafka_topic around.metadata
                              single,
                          slot,
                          seeded,
                        );
                  }).after
        h
