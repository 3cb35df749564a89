-- ===== src/Writer.antt =====
-- cmd/destination-writer/main.go: the loop that turns Kafka records into destination transactions.
pub mod Keeping
pub mod Marking
pub mod Settling
pub mod Quarantine
pub mod Complete
pub mod Ordering
pub mod Grouping
pub mod Durability
pub mod Polling
pub mod Boot
use pg_live_sync.Prelude.{
  ℕ, suc, ◌+◌, ◌-◌, ◌==◌, String, str_eq, Bool, true, false, not, Option, none, some, List, [], ◌∷◌,
  ◌++◌, map, length, get_elem?, itoa, if◌then◌else◌,
}
use pg_live_sync.Errclass.{
  Error, errorf, wrapf, batch_error, Result, ok, err, is_permanent, permanent_error,
}
use pg_live_sync.Action.{Action, pure, fail, lift, modify, map_error, continue, ◌>>=◌, ◌>>◌}
use pg_live_sync.Retry.{Round, default, do_retry}
use pg_live_sync.Cdc.{Event}
use pg_live_sync.Destination.Rows.{is_undefined_column}
use pg_live_sync.Destination.Database.{Database}
use pg_live_sync.Destination.Columns.{World}
use pg_live_sync.Destination.Apply.{apply}
use pg_live_sync.Destination.Upserts.{LsnParser}
use pg_live_sync.Destination.Batch.{apply_batch}
use pg_live_sync.Destination.DeadLetters.{record_dead_letter}
use pg_live_sync.Destination.Repair.{Catalog, repair_schema}

-- A Kafka record that has been decoded.
pub record BufferedEvent : Type 0 where
  pub offset : ℕ
  pub event : Event

pub record GroupState : Type 0 where
  pub txid : ℕ
  pub count : ℕ
  pub next_seq : ℕ
  -- group.tx is not nil
  pub tx : Bool
  pub last_record : ℕ
  pub buffer : List BufferedEvent

-- The process, the destination, and the consumer group's committed offset in Kafka (the next record
-- that a restarted writer reads). The counters are those of the observer.
pub record Writer (D : Database) : Type 0 where
  pub world : World D
  pub group : Option GroupState
  pub committed : ℕ
  pub applied : ℕ
  pub duplicates : ℕ
  pub dead_letters : ℕ

-- What the writer is connected to besides the destination, and how it answers: each attempt to
-- commit an offset, the context's error, if it has ended, and the rollback of the open transaction.
pub record Services (D : Database) : Type 0 where
  pub parse_lsn : LsnParser
  pub source : Catalog D
  pub commit_attempt : ℕ → Round
  pub context_error : Option Error
  pub rollback : Result (Unit {0})

-- errors.As(err, &poison)
unfoldable pub as_batch_error : Error → Option (ℕ × Error)
as_batch_error (batch_error i e) = some (i, e)
as_batch_error (wrapf f a e) = as_batch_error e
as_batch_error (permanent_error e) = as_batch_error e
as_batch_error _ = none

out_of_order : String → List String → Error
out_of_order format args = errorf format args

-- The ordering checks of `handleEvent`, and the group that the event belongs to.
unfoldable pub open_group : ℕ → Event → Option GroupState → Result GroupState
unfolding out_of_order
open_group offset event none =
    if event.source.sequence == 1
    then ok (record {
      txid = event.source.transaction_id;
      count = event.source.transaction_event_count;
      next_seq = 1;
      tx = true;
      last_record = offset;
      buffer = [];
    })
    else err (
        out_of_order "out-of-order Kafka stream: event %s starts at sequence %d, want 1"
          (event.id ∷ itoa event.source.sequence ∷ []))
open_group offset event (some current) =
    if event.source.transaction_id == current.txid
    then if event.source.sequence == current.next_seq
      then ok current
      else err (
          out_of_order "out-of-order Kafka stream: event %s has sequence %d, want %d"
            (event.id ∷ itoa event.source.sequence ∷ itoa current.next_seq ∷ []))
    else err (
        out_of_order "out-of-order Kafka stream: event %s has transaction %d while %d is still open"
          (event.id ∷ itoa event.source.transaction_id ∷ itoa current.txid ∷ []))

-- buffer, lastRecord and nextSeq after an event
unfoldable pub buffered : ℕ → Event → GroupState → GroupState
buffered offset event g = record g {
  buffer = g.buffer ++ record { offset = offset; event = event } ∷ [];
  last_record = offset;
  next_seq = suc g.next_seq;
}

-- nextSeq-1 == count
unfoldable pub is_complete : GroupState → Bool
is_complete g = g.next_seq - 1 == g.count

abbrev pub events_of : GroupState → List Event
events_of g = map (λ (b : BufferedEvent). b.event) g.buffer

module _ (D : Database) (services : Services D) where
  -- An action on the destination alone.
  abbrev pub on_world : {A : Type 0} → Action (World D) A → Action (Writer D) A
  on_world m s = let (r, w) = m s.world in (r, record s { world = w })

  unfoldable pub count_outcome : Bool → Action (Writer D) Unit
  count_outcome true = modify (λ (s : Writer D). record s { applied = suc s.applied })
  count_outcome false = modify (λ (s : Writer D). record s { duplicates = suc s.duplicates })

  unfoldable pub dead_letter : Event → Error → Action (Writer D) Unit
  dead_letter event why = do
    on_world (record_dead_letter D services.parse_lsn event why)
    modify (λ (s : Writer D). record s { dead_letters = suc s.dead_letters })

  after_replay : Event → Result Bool → Action (Writer D) Unit
  unfolding count_outcome dead_letter
  after_replay event (ok applied) = count_outcome applied
  after_replay event (err e) = if is_permanent e then dead_letter event e else fail e

  replay_one : Event → Action (Writer D) Unit
  unfolding after_replay
  replay_one event s =
      let (r, w) = apply D services.parse_lsn event s.world in
      after_replay event r (record s { world = w })

  -- replayHealthyEvents
  unfoldable pub replay_healthy_events : String → List Event → Action (Writer D) Unit
  unfolding replay_one
  replay_healthy_events poison [] = pure tt
  replay_healthy_events poison (event ∷ events) = do
    if str_eq event.id poison then pure tt else replay_one event
    replay_healthy_events poison events

  -- The event after a repair, tried once.
  retry_repaired : Event → Result Bool → Action (Writer D) Unit
  unfolding count_outcome dead_letter
  retry_repaired event (ok applied) = count_outcome applied
  retry_repaired event (err e) = if is_permanent e then dead_letter event e else fail e

  after_repair : Event → Error → Result Bool → Action (Writer D) Unit
  unfolding retry_repaired dead_letter
  after_repair event why (ok true) s =
      let (r, w) = apply D services.parse_lsn event s.world in
      retry_repaired event r (record s { world = w })
  after_repair event why _ s = dead_letter event why s

  -- quarantinePoison
  unfoldable pub quarantine_poison : Event → Error → Action (Writer D) Unit
  unfolding after_repair dead_letter is_undefined_column
  quarantine_poison event why s =
      if is_undefined_column why
      then (let (r, w) = repair_schema D services.source event s.world in
          after_repair event why r (record s { world = w }))
      else dead_letter event why s

  -- A poison event: roll back, re-apply the others one by one, then quarantine it.
  pub isolate : List Event → Option Event → Error → Action (Writer D) Unit
  unfolding replay_healthy_events quarantine_poison
  isolate events none why = fail why
  isolate events (some poison) why = do
    replay_healthy_events poison.id events
    quarantine_poison poison why

  rolled_back : List Event → ℕ × Error → Result (Unit {0}) → Action (Writer D) Unit
  unfolding isolate
  rolled_back events (i, why) (err e) = fail (wrapf "roll back quarantined group: %w" [] e)
  rolled_back events (i, why) (ok _) = isolate events (get_elem? events i) why

  failed_batch : List Event → Error → Option (ℕ × Error) → Action (Writer D) Unit
  unfolding rolled_back
  failed_batch events e none = fail e
  failed_batch events e (some poison) = rolled_back events poison services.rollback

  -- What is done with the outcome of the batch; `before` is the database before its transaction.
  after_batch : GroupState → D.Db → Result (Unit {0}) → Action (Writer D) Unit
  unfolding failed_batch as_batch_error
  after_batch g before (err e) s =
      failed_batch (events_of g) e (as_batch_error e)
        (record s { world = record s.world { db = before } })
  after_batch g before (ok _) s =
      let (done, db) = D.commit_tx before s.world.db in
      (
        map_error
            (wrapf "commit destination transaction for source transaction %d: %w"
              (itoa g.txid ∷ []))
            done,
        record s { world = record s.world { db = db } },
      )

  -- commitDestinationTransaction
  unfoldable pub commit_destination_transaction : GroupState → Action (Writer D) Unit
  unfolding after_batch
  commit_destination_transaction g s =
      if not g.tx
      then (ok tt, s)
      else (let (r, w) = apply_batch D services.parse_lsn (events_of g) s.world in
          after_batch g s.world.db r (record s { world = w }))

  offset_outcome : GroupState → Result (Unit {0}) → Option Error → Action (Writer D) Unit
  offset_outcome g (ok _) cancelled =
      modify (λ (s : Writer D). record s { committed = suc g.last_record })
  offset_outcome g (err e) (some ended) = fail ended
  offset_outcome g (err e) none = fail (
      wrapf "commit Kafka offset %d after source transaction %d: %w"
        (itoa g.last_record ∷ itoa g.txid ∷ []) e)

  -- commitKafkaOffsetAndAllowRebalance
  unfoldable pub commit_kafka_offset : GroupState → Action (Writer D) Unit
  unfolding offset_outcome
  commit_kafka_offset g =
      offset_outcome g (do_retry default "commit Kafka offset" services.commit_attempt).0
        services.context_error

  -- closeGroup
  unfoldable pub close_group : GroupState → Action (Writer D) Unit
  unfolding commit_destination_transaction commit_kafka_offset
  close_group g = do commit_destination_transaction g; commit_kafka_offset g

  -- connection.Begin for a new group
  begun : ℕ → Option GroupState → Result (Unit {0}) → Result (Unit {0})
  begun txid none (err e) =
      err (wrapf "begin destination transaction for source transaction %d: %w" (itoa txid ∷ []) e)
  begun txid _ _ = ok tt

  -- `*group` when closeGroup has returned: after a failure a group that was open before holds the
  -- last event too, since handleEvent changes it in place, and its transaction has ended.
  left_open : GroupState → Result (Unit {0}) → Option GroupState → Option GroupState
  left_open g (ok _) group = none
  left_open g (err e) none = none
  left_open g (err e) (some _) = some (record g { tx = false })

  -- What happens once the last event is there.
  pub finished : GroupState → Action (Writer D) Unit
  unfolding close_group left_open
  finished g s = let (r, t) = close_group g s in (r, record t { group = left_open g r s.group })

  advance : GroupState → Action (Writer D) Unit
  unfolding is_complete finished
  advance g =
      if is_complete g then finished g else modify (λ (s : Writer D). record s { group = some g })

  unfoldable pub handle_event : ℕ → Event → Action (Writer D) Unit
  unfolding advance begun
  handle_event offset event s =
      (do
        g ← lift (open_group offset event s.group)
        lift (begun event.source.transaction_id s.group (D.begin_tx s.world.db))
        advance (buffered offset event g))
        s

  -- The records of the topic from the committed offset on, until one is refused.
  unfoldable pub consume : ℕ → List Event → Action (Writer D) Unit
  unfolding handle_event
  consume offset [] = pure tt
  consume offset (event ∷ events) = do handle_event offset event; consume (suc offset) events

  stop_group : Option GroupState → Writer D → Writer D
  unfolding close_group is_complete
  stop_group none s = s
  stop_group (some g) s = if is_complete g then (close_group g s).1 else s

  -- `shutdown`; a failed final commit is only logged, and an incomplete group is rolled back.
  unfoldable pub shutdown : Writer D → Writer D
  unfolding stop_group
  shutdown s = record (stop_group s.group s) { group = none }
