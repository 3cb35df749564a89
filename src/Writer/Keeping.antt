-- ===== src/Writer/Keeping.antt =====
-- What applying a group leaves alone: the open group and the offset committed to Kafka.
use pg_live_sync.Prelude.{
  ℕ, String, str_eq, Bool, true, false, not, Option, none, some, List, [], ◌∷◌, get_elem?,
  if◌then◌else◌,
}
use pg_live_sync.Errclass.{Error, Result, ok, err, is_permanent}
use pg_live_sync.Action.{Action, pure}
use pg_live_sync.Action.Keeps.{Keeps, Keeps-pure, Keeps-fail, Keeps-if, Keeps-bind}
use pg_live_sync.Cdc.{Event}
use pg_live_sync.Destination.Rows.{is_undefined_column}
use pg_live_sync.Destination.Database.{Database}
use pg_live_sync.Destination.Columns.{World}
use pg_live_sync.Destination.Apply.{apply}
use pg_live_sync.Destination.Repair.{repair_schema}
use pg_live_sync.Destination.Batch.{apply_batch}
use pg_live_sync.Destination.DeadLetters.{record_dead_letter}
use pg_live_sync.Writer.{
  GroupState, Writer, Services, on_world, count_outcome, dead_letter, after_replay, replay_one,
  replay_healthy_events, retry_repaired, after_repair, quarantine_poison, isolate, rolled_back,
  failed_batch, after_batch, commit_destination_transaction, events_of, as_batch_error,
}

module _ (D : Database) (services : Services D) (Q : Option GroupState → ℕ → Type 0) where
  abbrev pub IsKept : Writer D → Type 0
  IsKept s = Q s.group s.committed

  Keeps-on_world : {A : Type 0} (m : Action (World D) A) → Keeps IsKept (on_world D services m)
  Keeps-on_world m = record { after = λ s h. h }

  Keeps-count_outcome : (b : Bool) → Keeps IsKept (count_outcome D services b)
  unfolding count_outcome
  Keeps-count_outcome true = record { after = λ s h. h }
  Keeps-count_outcome false = record { after = λ s h. h }

  Keeps-dead_letter :
      (event : Event) (why : Error) → Keeps IsKept (dead_letter D services event why)
  unfolding dead_letter
  Keeps-dead_letter event why =
      Keeps-bind (on_world D services (record_dead_letter D services.parse_lsn event why)) _
        (Keeps-on_world _) (λ _. record { after = λ s h. h })

  Keeps-after_replay :
      (event : Event) (r : Result Bool) → Keeps IsKept (after_replay D services event r)
  unfolding after_replay
  Keeps-after_replay event (ok b) = Keeps-count_outcome b
  Keeps-after_replay event (err e) =
      Keeps-if (is_permanent e) _ _ (Keeps-dead_letter event e) (Keeps-fail e)

  Keeps-replay_one : (event : Event) → Keeps IsKept (replay_one D services event)
  unfolding replay_one
  Keeps-replay_one event = record {
    after = λ s h.
        let (r, w) = apply D services.parse_lsn event s.world in
        (Keeps-after_replay event r).after (record s { world = w }) h;
  }

  Keeps-replay_healthy_events :
      (poison : String) (events : List Event)
      → Keeps IsKept (replay_healthy_events D services poison events)
  unfolding replay_healthy_events
  Keeps-replay_healthy_events poison [] = Keeps-pure tt
  Keeps-replay_healthy_events poison (event ∷ events) =
      Keeps-bind (if str_eq event.id poison then pure tt else replay_one D services event)
        (λ _. replay_healthy_events D services poison events)
        (Keeps-if (str_eq event.id poison) _ _ (Keeps-pure tt) (Keeps-replay_one event))
        (λ _. Keeps-replay_healthy_events poison events)

  Keeps-retry_repaired :
      (event : Event) (r : Result Bool) → Keeps IsKept (retry_repaired D services event r)
  unfolding retry_repaired
  Keeps-retry_repaired event (ok b) = Keeps-count_outcome b
  Keeps-retry_repaired event (err e) =
      Keeps-if (is_permanent e) _ _ (Keeps-dead_letter event e) (Keeps-fail e)

  Keeps-after_repair :
      (event : Event) (why : Error) (r : Result Bool)
      → Keeps IsKept (after_repair D services event why r)
  unfolding after_repair
  Keeps-after_repair event why (ok true) = record {
    after = λ s h.
        let (r, w) = apply D services.parse_lsn event s.world in
        (Keeps-retry_repaired event r).after (record s { world = w }) h;
  }
  Keeps-after_repair event why (ok false) = Keeps-dead_letter event why
  Keeps-after_repair event why (err e) = Keeps-dead_letter event why

  Keeps-repair :
      (event : Event) (why : Error)
      → Keeps IsKept (λ s.
        let (r, w) = repair_schema D services.source event s.world in
        after_repair D services event why r (record s { world = w }))
  Keeps-repair event why = record {
    after = λ s h.
        let (r, w) = repair_schema D services.source event s.world in
        (Keeps-after_repair event why r).after (record s { world = w }) h;
  }

  Keeps-choice :
      (b : Bool) (m n : Action (Writer D) Unit)
      → Keeps IsKept m
      → Keeps IsKept n
      → Keeps IsKept (λ s. if b then m s else n s)
  Keeps-choice true m n k l = k
  Keeps-choice false m n k l = l

  Keeps-quarantine_poison :
      (event : Event) (why : Error) → Keeps IsKept (quarantine_poison D services event why)
  unfolding quarantine_poison
  Keeps-quarantine_poison event why =
      Keeps-choice (is_undefined_column why) _ _ (Keeps-repair event why)
        (Keeps-dead_letter event why)

  Keeps-isolate :
      (events : List Event) (poison : Option Event) (why : Error)
      → Keeps IsKept (isolate D services events poison why)
  unfolding isolate
  Keeps-isolate events none why = Keeps-fail why
  Keeps-isolate events (some poison) why =
      Keeps-bind (replay_healthy_events D services poison.id events)
        (λ _. quarantine_poison D services poison why)
        (Keeps-replay_healthy_events poison.id events) (λ _. Keeps-quarantine_poison poison why)

  Keeps-rolled_back :
      (events : List Event) (poison : ℕ × Error) (r : Result (Unit {0}))
      → Keeps IsKept (rolled_back D services events poison r)
  unfolding rolled_back
  Keeps-rolled_back events (i, why) (err e) = Keeps-fail _
  Keeps-rolled_back events (i, why) (ok _) = Keeps-isolate events (get_elem? events i) why

  Keeps-failed_batch :
      (events : List Event) (e : Error) (poison : Option (ℕ × Error))
      → Keeps IsKept (failed_batch D services events e poison)
  unfolding failed_batch
  Keeps-failed_batch events e none = Keeps-fail e
  Keeps-failed_batch events e (some poison) = Keeps-rolled_back events poison services.rollback

  Keeps-after_batch :
      (g : GroupState) (before : D.Db) (r : Result (Unit {0}))
      → Keeps IsKept (after_batch D services g before r)
  unfolding after_batch
  Keeps-after_batch g before (ok _) = record { after = λ s h. h }
  Keeps-after_batch g before (err e) = record {
    after = λ s h.
        (Keeps-failed_batch (events_of g) e (as_batch_error e)).after
          (record s { world = record s.world { db = before } }) h;
  }

  applied :
      (g : GroupState)
      → Keeps IsKept (λ s.
        let (r, w) = apply_batch D services.parse_lsn (events_of g) s.world in
        after_batch D services g s.world.db r (record s { world = w }))
  applied g = record {
    after = λ s h.
        let (r, w) = apply_batch D services.parse_lsn (events_of g) s.world in
        (Keeps-after_batch g s.world.db r).after (record s { world = w }) h;
  }

  pub Keeps-commit_destination_transaction :
      (g : GroupState) → Keeps IsKept (commit_destination_transaction D services g)
  unfolding commit_destination_transaction
  Keeps-commit_destination_transaction g =
      Keeps-choice (not g.tx) (pure tt) _ (Keeps-pure tt) (applied g)
