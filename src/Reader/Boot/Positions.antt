-- ===== src/Reader/Boot/Positions.antt =====
-- From which position cmd/source-reader/main.go starts to stream.
use pg_live_sync.Prelude.{
  ℕ, ◌≡◌, refl, ap, ◌∙◌, ◌⊎◌, inl, inr, String, Bool, true, false, Option, none, some, [], ◌∷◌,
}
use mathlib.Core.Path.{subst}
use pg_live_sync.Errclass.{wrapf, Result, ok, err, ok-injective}
use pg_live_sync.Action.{pure, map_error}
use pg_live_sync.Action.Ends.{Ends, Ends-bind, Ends-check, Ends-lift, Ends-weaken}
use pg_live_sync.Destination.Upserts.{LsnParser}
use pg_live_sync.Reader.{Reader}
use pg_live_sync.Reader.Kafka.{ensure_topic_config, verify_kafka_durability}
use pg_live_sync.Reader.Kafka.Durable.{IsDurable, verify_kafka_durability-IsDurable}
use pg_live_sync.Reader.Slots.{
  SourceServer, fence_key, find_slot_lsn, verify_slot_recoverable, Identities, discover,
}
use pg_live_sync.Reader.Slots.Answers.{
  parsed_position-eq-ok, slot_absent, slot_present, slot_recoverable,
}
use pg_live_sync.Reader.Boot.{
  ReaderConfig, locked, created_slot, started, Steps, lock_answer, after_create, after_start,
  KafkaClient, check_names, reader_at, acquire_fence, create_replication_slot, dial_replication,
  starting_point, open_stream, boot,
}

module _ (server : SourceServer) (parse_lsn : LsnParser) where
  -- The slot was there, acknowledged up to this position, and the WAL that it needs is kept.
  pub record Resumes (slot : String) (lsn : ℕ) : Type 0 where
    pub acknowledged : String
    pub position : server.slot_position slot ≡ ok (some acknowledged)
    pub parsed : parse_lsn acknowledged ≡ some lsn
    pub restart : String
    pub needed : server.restart_point slot ≡ ok restart
    pub kept : server.wal_kept restart ≡ ok true

  -- There was no slot, and the position is the consistent point of the new one.
  pub record Creates (slot : String) (lsn : ℕ) : Type 0 where
    pub absent : server.slot_position slot ≡ ok none
    pub point : String
    pub created : server.create_slot slot ≡ ok point
    pub parsed : parse_lsn point ≡ some lsn

  -- The lock, the slot where it is new, and the stream, and nothing else.
  abbrev pub StartsAt : String → ℕ → Steps → Steps → Type 0
  StartsAt slot lsn before after =
      (Resumes slot lsn × (after ≡ started slot lsn ∷ locked (fence_key slot) ∷ before))
      ⊎ (Creates slot lsn
          × (after ≡ started slot lsn ∷ created_slot slot ∷ locked (fence_key slot) ∷ before))

  lock_answer-Ends :
      (slot : String) (answer : Result Bool) (w : Steps)
      → Ends (λ _ w'. w' ≡ locked (fence_key slot) ∷ w) (lock_answer slot answer) w
  unfolding lock_answer
  lock_answer-Ends slot (err e) w = record { after = λ h. cc }
  lock_answer-Ends slot (ok false) w = record { after = λ h. cc }
  lock_answer-Ends slot (ok true) w = record { after = λ h. refl }

  acquire-Ends :
      (slot : String) (w : Steps)
      → Ends (λ _ w'. w' ≡ locked (fence_key slot) ∷ w) (acquire_fence server parse_lsn slot) w
  unfolding acquire_fence
  acquire-Ends slot w =
      Ends-check
        (map_error (wrapf "connect to PostgreSQL for fencing: %w" []) server.fence_connection) _ w
        λ _ _. lock_answer-Ends slot (server.try_lock (fence_key slot)) w

  created-Ends :
      (slot : String) (answer : Result String) (w : Steps)
      → Ends
          (λ point w'. (answer ≡ ok point) × (w' ≡ created_slot slot ∷ w))
          (after_create slot answer)
          w
  unfolding after_create
  created-Ends slot (err e) w = record { after = λ h. cc }
  created-Ends slot (ok point) w = record { after = λ h. (h, refl) }

  started-Ends :
      (slot : String) (lsn : ℕ) (answer : Result (Unit {0})) (w : Steps)
      → Ends (λ _ w'. w' ≡ started slot lsn ∷ w) (after_start slot lsn answer) w
  unfolding after_start
  started-Ends slot lsn (err e) w = record { after = λ h. cc }
  started-Ends slot lsn (ok _) w = record { after = λ h. refl }

  dial-Ends :
      (slot publication : String) (lsn : ℕ) (w : Steps)
      → Ends
          (λ _ w'. w' ≡ started slot lsn ∷ w)
          (dial_replication server parse_lsn slot publication lsn)
          w
  unfolding dial_replication
  dial-Ends slot publication lsn w =
      Ends-check
        (map_error (wrapf "connect to PostgreSQL replication protocol: %w" [])
          server.streaming_connection)
        _ w λ _ _. started-Ends slot lsn (server.start_replication slot lsn publication) w

  -- The position, and what was done to get it.
  abbrev StartsFrom : String → Steps → ℕ → Steps → Type 0
  StartsFrom slot before lsn after =
      (Resumes slot lsn × (after ≡ before))
      ⊎ (Creates slot lsn × (after ≡ created_slot slot ∷ before))

  starting_point-Ends :
      (slot : String) (found : Option ℕ) (w : Steps)
      → find_slot_lsn server parse_lsn slot ≡ ok found
      → verify_slot_recoverable server parse_lsn slot found ≡ ok tt
      → Ends (StartsFrom slot w) (starting_point server parse_lsn slot found) w
  unfolding starting_point create_replication_slot
  starting_point-Ends slot (some lsn) w at checked =
      let (text, position, parsed) = slot_present server parse_lsn slot at in
      let (restart, needed, kept) = slot_recoverable server parse_lsn slot lsn checked in
      record {
        after = λ h. inl (
          record {
            acknowledged = text;
            position = position;
            parsed = parsed ∙ ap some (ok-injective h);
            restart = restart;
            needed = needed;
            kept = kept;
          },
          refl,
        );
      }
  starting_point-Ends slot none w at checked =
      Ends-check
        (map_error (wrapf "connect to PostgreSQL replication protocol: %w" [])
          server.creating_connection)
        _ w
        λ _ _. Ends-bind (after_create slot (server.create_slot slot)) _ w λ point made.
          let (created, then) = (created-Ends slot (server.create_slot slot) w).after made in
          Ends-lift _ _ λ lsn parsed. inr (
            record {
              absent = slot_absent server parse_lsn slot at;
              point = point;
              created = created;
              parsed = parsed_position-eq-ok _ (parse_lsn point) parsed;
            },
            then,
          )

  started_from :
      (slot : String) (lsn : ℕ) (w fenced pointed streaming : Steps)
      → fenced ≡ locked (fence_key slot) ∷ w
      → StartsFrom slot fenced lsn pointed
      → streaming ≡ started slot lsn ∷ pointed
      → StartsAt slot lsn w streaming
  started_from slot lsn w fenced pointed streaming f (inl (resumes, p)) s =
      inl (resumes, s ∙ ap (◌∷◌ (started slot lsn)) (p ∙ f))
  started_from slot lsn w fenced pointed streaming f (inr (creates, p)) s =
      inr (creates, s ∙ ap (◌∷◌ (started slot lsn)) (p ∙ ap (◌∷◌ (created_slot slot)) f))

  -- The reader that starts, and what it did to the source.
  abbrev pub StartsWell : String → Steps → Reader → Steps → Type 0
  StartsWell slot before reader after =
      StartsAt slot reader.durable_lsn before after × (reader.reported ≡ [])

  reader-StartsWell :
      (slot : String) (identity : Identities) (lsn : ℕ) (before after : Steps)
      → StartsAt slot lsn before after
      → Ends (StartsWell slot before) (pure (reader_at identity lsn)) after
  unfolding reader_at
  reader-StartsWell slot identity lsn before after h = record {
    after = λ {a} at.
        subst (λ (r : Reader). StartsWell slot before r after) (ok-injective at) (h, refl);
  }

  open_stream-Ends :
      (config : ReaderConfig) (w : Steps)
      → Ends (StartsWell config.slot w) (open_stream server parse_lsn config) w
  unfolding open_stream
  open_stream-Ends config w =
      let fence = acquire_fence server parse_lsn config.slot in
      Ends-bind fence _ w λ _ taken.
        Ends-check (find_slot_lsn server parse_lsn config.slot) _ (fence w).1 λ found at.
          Ends-check (verify_slot_recoverable server parse_lsn config.slot found) _ (fence w).1
            λ _ checked. Ends-check (discover server config.publication) _ (fence w).1 λ identity _.
              let point = starting_point server parse_lsn config.slot found in
              Ends-bind point _ (fence w).1 λ lsn begun.
                let dial = dial_replication server parse_lsn config.slot config.publication lsn in
                Ends-bind dial _ (point (fence w).1).1 λ _ dialed.
                  reader-StartsWell config.slot identity lsn w _ (
                    started_from config.slot lsn w (fence w).1 (point (fence w).1).1 _
                      ((acquire-Ends config.slot w).after taken)
                      ((starting_point-Ends config.slot found (fence w).1 at checked).after begun)
                      ((dial-Ends config.slot config.publication lsn (point (fence w).1).1).after
                        dialed))

  -- A reader that starts without an error has found its topic durable, and has taken the slot's
  -- lock; then it streams from the position up to which the slot was acknowledged, whose WAL is
  -- kept, or from the consistent point of the slot that it made, having reported nothing yet.
  pub boot-StartsWell :
      (kafka : KafkaClient) (config : ReaderConfig) (w : Steps) (reader : Reader)
      → (boot server parse_lsn kafka config w).0 ≡ ok reader
      → IsDurable config.kafka_topic kafka.admin
        × StartsWell config.slot w reader (boot server parse_lsn kafka config w).1
  unfolding boot
  boot-StartsWell kafka config w reader h =
      (Ends-check
          {Q = λ r w'. IsDurable config.kafka_topic kafka.admin × StartsWell config.slot w r w'}
          (check_names config) _ w
          λ _ _.
            Ends-check (map_error (wrapf "create Kafka producer: %w" []) kafka.opened) _ w λ _ _.
              Ends-check (map_error (wrapf "connect to Kafka: %w" []) kafka.pinged) _ w λ _ _.
                Ends-check (ensure_topic_config config.kafka_topic kafka.admin.create) _ w λ _ _.
                  Ends-check (verify_kafka_durability config.kafka_topic kafka.admin) _ w
                    λ _ durable.
                      Ends-weaken (open_stream server parse_lsn config) w
                        (open_stream-Ends config w)
                        λ r w' well. (
                          verify_kafka_durability-IsDurable config.kafka_topic kafka.admin durable,
                          well,
                        )).after
        h
