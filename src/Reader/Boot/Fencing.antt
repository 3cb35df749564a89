-- ===== src/Reader/Boot/Fencing.antt =====
-- The advisory lock that cmd/source-reader/main.go takes before it touches its replication slot.
use pg_live_sync.Prelude.{
  ℕ, ◌≡◌, refl, ◌⊎◌, inl, String, Bool, true, false, Option, none, some, [], ◌∷◌,
}
use pg_live_sync.Prelude.Int.{ℤ}
use pg_live_sync.Errclass.{wrapf, Result, ok, err}
use pg_live_sync.Action.{lift, map_error}
use pg_live_sync.Action.Keeps.{Keeps, Keeps-pure, Keeps-lift, Keeps-bind}
use pg_live_sync.Action.Always.{Always, Always-bind}
use pg_live_sync.Destination.Upserts.{LsnParser}
use pg_live_sync.Reader.Kafka.{ensure_topic_config, verify_kafka_durability}
use pg_live_sync.Reader.Slots.{
  SourceServer, fence_key, find_slot_lsn, verify_slot_recoverable, discover,
}
use pg_live_sync.Reader.Boot.{
  ReaderConfig, locked, created_slot, started, Steps, lock_answer, after_create, after_start,
  KafkaClient, check_names, reader_at, acquire_fence, create_replication_slot, dial_replication,
  starting_point, open_stream, boot,
}

-- The lock was taken.
abbrev pub IsHeld : ℤ → Steps → Type 0
IsHeld key [] = ⊥
IsHeld key (locked taken ∷ earlier) = (taken ≡ key) ⊎ IsHeld key earlier
IsHeld key (created_slot slot ∷ earlier) = IsHeld key earlier
IsHeld key (started slot lsn ∷ earlier) = IsHeld key earlier

-- A slot is created, and a stream started, only after the slot's lock was taken.
abbrev pub IsFenced : Steps → Type 0
IsFenced [] = Unit {0}
IsFenced (locked key ∷ earlier) = IsFenced earlier
IsFenced (created_slot slot ∷ earlier) = IsHeld (fence_key slot) earlier × IsFenced earlier
IsFenced (started slot lsn ∷ earlier) = IsHeld (fence_key slot) earlier × IsFenced earlier

-- What holds from the lock on.
abbrev Owns : String → Steps → Type 0
Owns slot w = IsHeld (fence_key slot) w × IsFenced w

lock_answer-Fenced :
    (slot : String) (answer : Result Bool) (w : Steps)
    → IsFenced w
    → Always (λ r w'. IsFenced w' × (r ≡ ok tt → Owns slot w')) (lock_answer slot answer) w
unfolding lock_answer
lock_answer-Fenced slot (err e) w h = record { holds = (h, λ at. cc) }
lock_answer-Fenced slot (ok false) w h = record { holds = (h, λ at. cc) }
lock_answer-Fenced slot (ok true) w h = record { holds = (h, λ at. (inl refl, h)) }

created-Owns :
    (slot : String) (answer : Result String) (w : Steps)
    → Owns slot w
    → Owns slot (after_create slot answer w).1
unfolding after_create
created-Owns slot (err e) w h = h
created-Owns slot (ok point) w h = (h.0, h)

started-Owns :
    (slot : String) (lsn : ℕ) (answer : Result (Unit {0})) (w : Steps)
    → Owns slot w
    → Owns slot (after_start slot lsn answer w).1
unfolding after_start
started-Owns slot lsn (err e) w h = h
started-Owns slot lsn (ok _) w h = (h.0, h)

module _ (server : SourceServer) (parse_lsn : LsnParser) where
  acquire-Fenced :
      (slot : String) (w : Steps)
      → IsFenced w
      → Always
          (λ r w'. IsFenced w' × (r ≡ ok tt → Owns slot w'))
          (acquire_fence server parse_lsn slot)
          w
  unfolding acquire_fence
  acquire-Fenced slot w h =
      Always-bind
        (lift
          (map_error (wrapf "connect to PostgreSQL for fencing: %w" []) server.fence_connection))
        _ w (λ e at. (h, λ at'. cc))
        (λ _ at. lock_answer-Fenced slot (server.try_lock (fence_key slot)) w h)

  starting_point-Owns :
      (slot : String) (found : Option ℕ)
      → Keeps (Owns slot) (starting_point server parse_lsn slot found)
  unfolding starting_point create_replication_slot
  starting_point-Owns slot (some lsn) = Keeps-pure lsn
  starting_point-Owns slot none =
      Keeps-bind
        (lift (
          map_error (wrapf "connect to PostgreSQL replication protocol: %w" [])
            server.creating_connection))
        _ (Keeps-lift _)
        λ _.
          Keeps-bind (after_create slot (server.create_slot slot)) _
            (record { after = created-Owns slot (server.create_slot slot) }) λ point. Keeps-lift _

  dial-Owns :
      (slot publication : String) (lsn : ℕ)
      → Keeps (Owns slot) (dial_replication server parse_lsn slot publication lsn)
  unfolding dial_replication
  dial-Owns slot publication lsn =
      Keeps-bind
        (lift (
          map_error (wrapf "connect to PostgreSQL replication protocol: %w" [])
            server.streaming_connection))
        _ (Keeps-lift _)
        λ _. record {
          after = started-Owns slot lsn (server.start_replication slot lsn publication);
        }

  open_stream-IsFenced :
      (config : ReaderConfig) (w : Steps)
      → IsFenced w
      → Always (λ _. IsFenced) (open_stream server parse_lsn config) w
  unfolding open_stream
  open_stream-IsFenced config w h =
      let fence = acquire_fence server parse_lsn config.slot in
      let fenced = (acquire-Fenced config.slot w h).holds in
      Always-bind fence _ w (λ e at. fenced.0)
        λ _ at. record {
          holds =
              ((Keeps-bind (lift (find_slot_lsn server parse_lsn config.slot)) _ (Keeps-lift _)
                  λ found.
                    Keeps-bind (lift (verify_slot_recoverable server parse_lsn config.slot found)) _
                      (Keeps-lift _)
                      λ _.
                        Keeps-bind (lift (discover server config.publication)) _ (Keeps-lift _)
                          λ identity.
                            Keeps-bind (starting_point server parse_lsn config.slot found) _
                              (starting_point-Owns config.slot found)
                              λ lsn.
                                Keeps-bind
                                  (dial_replication server parse_lsn config.slot config.publication
                                    lsn)
                                  _ (dial-Owns config.slot config.publication lsn)
                                  λ _. Keeps-pure (reader_at identity lsn)).after
                (fence w).1 (fenced.1 at)).1;
        }

  -- Whether the start succeeds or not, the reader creates a replication slot and starts to stream
  -- from one only after it took that slot's lock.
  pub boot-IsFenced :
      (kafka : KafkaClient) (config : ReaderConfig) (w : Steps)
      → IsFenced w
      → IsFenced (boot server parse_lsn kafka config w).1
  unfolding boot
  boot-IsFenced kafka config w h =
      (Always-bind (lift (check_names config)) _ w (λ e at. h)
        λ _ _.
          Always-bind (lift (map_error (wrapf "create Kafka producer: %w" []) kafka.opened)) _ w
            (λ e at. h)
            λ _ _.
              Always-bind (lift (map_error (wrapf "connect to Kafka: %w" []) kafka.pinged)) _ w
                (λ e at. h)
                λ _ _.
                  Always-bind (lift (ensure_topic_config config.kafka_topic kafka.admin.create)) _ w
                    (λ e at. h)
                    λ _ _.
                      Always-bind (lift (verify_kafka_durability config.kafka_topic kafka.admin)) _
                        w (λ e at. h) λ _ _. open_stream-IsFenced config w h).holds
