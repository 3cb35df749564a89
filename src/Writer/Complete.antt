-- ===== src/Writer/Complete.antt =====
-- `commitDestinationTransaction` and `closeGroup` (cmd/destination-writer/main.go): no event is skipped.
use pg_live_sync.Prelude.{
  ◌≡◌, refl, ap, ℕ, ◌≢◌, Bool, true, false, not, Option, none, some, List, get_elem?, if◌then◌else◌,
}
use pg_live_sync.Errclass.{Error, Result, ok, err}
use pg_live_sync.Action.{Action, map_error, continue}
use pg_live_sync.Action.Keeps.{Keeps}
use pg_live_sync.Action.Ensures.{Ensures}
use pg_live_sync.Cdc.{Event}
use pg_live_sync.Destination.Database.{Database}
use pg_live_sync.Destination.Database.Laws.{Laws}
use pg_live_sync.Destination.Batch.{apply_batch}
use pg_live_sync.Destination.Batch.Replays.{AreMarked, apply_batch-AreMarked}
use pg_live_sync.Destination.Repair.Markers.{KeepsMarkers}
use pg_live_sync.Retry.{do_retry, default}
use pg_live_sync.Writer.{
  GroupState, Writer, Services, events_of, as_batch_error, rolled_back, failed_batch, after_batch,
  commit_destination_transaction, commit_kafka_offset, offset_outcome, close_group,
}
use pg_live_sync.Writer.Keeping.{Keeps-commit_destination_transaction}
use pg_live_sync.Writer.Settling.{AreSettled, isolate-Ensures}

module _ {D : Database} (services : Services D) (laws : Laws D)
    (alters : KeepsMarkers services.source) where
  rolled_back-Ensures :
      (events : List Event) (poison : ℕ × Error) (r : Result (Unit {0}))
      → Ensures (AreSettled D events) (rolled_back D services events poison r)
  unfolding rolled_back
  rolled_back-Ensures events (i, why) (err e) = record { after = λ s e. cc }
  rolled_back-Ensures events (i, why) (ok _) =
      isolate-Ensures services laws alters events (get_elem? events i) why

  failed-Ensures :
      (events : List Event) (e : Error) (poison : Option (ℕ × Error))
      → Ensures (AreSettled D events) (failed_batch D services events e poison)
  unfolding failed_batch
  failed-Ensures events e none = record { after = λ s e. cc }
  failed-Ensures events e (some poison) = rolled_back-Ensures events poison services.rollback

  committed_ok :
      (format : Error → Error) (before after : D.Db) (done : Result (Unit {0}))
      → (D.commit_tx before after).0 ≡ done
      → map_error format done ≡ ok tt
      → (D.commit_tx before after).1 ≡ after
  committed_ok format before after (ok tt) at h = laws.commits before after at
  committed_ok format before after (err e) at h = cc

  AreMarked-same :
      (events : List Event) (s : Writer D) (db : D.Db)
      → db ≡ s.world.db
      → AreMarked D events s.world
      → AreSettled D events (record s { world = record s.world { db = db } })
  AreMarked-same events s db same h = rw same h

  batch_settles :
      (g : GroupState) (before : D.Db) (r : Result (Unit {0})) (s : Writer D)
      → (r ≡ ok tt → AreMarked D (events_of g) s.world)
      → (after_batch D services g before r s).0 ≡ ok tt
      → AreSettled D (events_of g) (after_batch D services g before r s).1
  unfolding after_batch
  batch_settles g before (err e) s k h =
      (failed-Ensures (events_of g) e (as_batch_error e)).after
        (record s { world = record s.world { db = before } }) h
  batch_settles g before (ok tt) s k h =
      AreMarked-same (events_of g) s (D.commit_tx before s.world.db).1
        (committed_ok _ before s.world.db (D.commit_tx before s.world.db).0 refl h) (k refl)

  opened-Ensures :
      (events : List Event) (closed : Bool) (m : Action (Writer D) Unit)
      → closed ≡ false
      → Ensures (AreSettled D events) m
      → Ensures (AreSettled D events) (λ s. if closed then (ok tt, s) else m s)
  opened-Ensures events true m at h = cc
  opened-Ensures events false m at h = h

  applied : GroupState → Action (Writer D) Unit
  applied g s =
      let (r, w) = apply_batch D services.parse_lsn (events_of g) s.world in
      after_batch D services g s.world.db r (record s { world = w })

  applied-Ensures : (g : GroupState) → Ensures (AreSettled D (events_of g)) (applied g)
  unfolding applied
  applied-Ensures g = record {
    after = λ s e.
        let (r, w) = apply_batch D services.parse_lsn (events_of g) s.world in
        batch_settles g s.world.db r (record s { world = w })
          (λ at. apply_batch-AreMarked laws services.parse_lsn (events_of g) s.world at) e;
  }

  commit-Ensures :
      (g : GroupState)
      → g.tx ≡ true
      → Ensures (AreSettled D (events_of g)) (commit_destination_transaction D services g)
  unfolding commit_destination_transaction applied
  commit-Ensures g opened =
      opened-Ensures (events_of g) (not g.tx) (applied g) (ap not opened) (applied-Ensures g)

  offset-Keeps :
      (events : List Event) (g : GroupState) (r : Result (Unit {0})) (ended : Option Error)
      → Keeps (AreSettled D events) (offset_outcome D services g r ended)
  unfolding offset_outcome
  offset-Keeps events g (ok _) ended = record { after = λ s h. h }
  offset-Keeps events g (err e) none = record { after = λ s h. h }
  offset-Keeps events g (err e) (some x) = record { after = λ s h. h }

  after_destination :
      (g : GroupState) (r : Result (Unit {0})) (s s' : Writer D)
      → (r ≡ ok tt → AreSettled D (events_of g) s')
      → s'.committed ≡ s.committed
      → (continue r (λ _. commit_kafka_offset D services g) s').1.committed ≢ s.committed
      → AreSettled D (events_of g) (continue r (λ _. commit_kafka_offset D services g) s').1
  unfolding commit_kafka_offset
  after_destination g (ok tt) s s' k same moved =
      (offset-Keeps (events_of g) g
          (do_retry default "commit Kafka offset" services.commit_attempt).0
          services.context_error).after
        s' (k refl)
  after_destination g (err e) s s' k same moved = absurd (moved same)

  -- If `closeGroup` moves the offset committed to Kafka, each event of the group is marked as applied
  -- in the destination, also where the group had a poison event and was taken apart. This where
  -- PostgreSQL keeps its word on markers and COMMIT, and no change of the schema deletes a marker.
  pub close_group-AreSettled :
      (g : GroupState) (s : Writer D)
      → g.tx ≡ true
      → (close_group D services g s).1.committed ≢ s.committed
      → AreSettled D (events_of g) (close_group D services g s).1
  unfolding close_group
  close_group-AreSettled g s opened moved =
      after_destination g (commit_destination_transaction D services g s).0 s
        (commit_destination_transaction D services g s).1
        (λ at. (commit-Ensures g opened).after s at)
        ((Keeps-commit_destination_transaction D services
            (λ group committed. committed ≡ s.committed) g).after
          s refl)
        moved
