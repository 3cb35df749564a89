-- ===== src/Destination/Batch/InOrder/Mutations.antt =====
-- What it means that an event of `ApplyBatch` (internal/destination/applier.go) could be applied by
-- itself, and the steps that its kinds of mutation share.
use pg_live_sync.Prelude.{◌≡◌, String, List, [], ◌∷◌, ◌++◌, All}
use mathlib.Core.Path.{subst}
use pg_live_sync.Errclass.{wrapf, Result, ok}
use pg_live_sync.Action.{pure, map_error}
use pg_live_sync.Action.Runs.{Runs, Runs-checked, Runs-split, Runs-join, lift-Runs}
use pg_live_sync.Cdc.{Event, Operation}
use pg_live_sync.Destination.Sql.{Types}
use pg_live_sync.Destination.Rows.{verify_columns, permanent_event}
use pg_live_sync.Destination.Database.{Database}
use pg_live_sync.Destination.Columns.{World, table_columns}
use pg_live_sync.Destination.Apply.{apply_operation, apply_mutation}
use pg_live_sync.Destination.Upserts.{LsnParser}
use pg_live_sync.Destination.Batch.{Queued, run_one, run_queue, close_batch, flush}
use pg_live_sync.Destination.Batch.InOrder.{settle}
use pg_live_sync.Destination.Batch.InOrder.Delays.{
  IsRowChange, KeepsCatalog, lookup_delayed, run_queue-++,
}

abbrev pub AllChanges : List Queued → Type 0
AllChanges = All (λ (q : Queued). IsRowChange q.statement)

pub one_more :
    (queued : List Queued) (q : Queued)
    → AllChanges queued
    → IsRowChange q.statement
    → AllChanges (queued ++ q ∷ [])
one_more [] q h k = (k, tt)
one_more (first ∷ queued) q h k = (h.0, one_more queued q h.1 k)

module _ (D : Database) (parse_lsn : LsnParser) where
  pub flushed :
      (queued : List Queued) (w : World D) {v : World D}
      → Runs (flush D parse_lsn queued) w tt v
      → Runs (run_queue D parse_lsn queued) w tt v
  unfolding flush run_queue close_batch
  flushed [] w h = h
  flushed (q ∷ queued) w h =
      let (_, middle, ran, closed) =
        Runs-split (run_queue D parse_lsn (q ∷ queued))
          (λ _. close_batch D parse_lsn "flush mutation batch: %w") w h in
      let same =
        (lift-Runs (map_error (wrapf "flush mutation batch: %w" []) (D.close_batch middle.db))
          middle closed).1 in
      subst (λ v. Runs (run_queue D parse_lsn (q ∷ queued)) w tt v) same ran

  -- The queue before and after an event, and the event by itself.
  abbrev pub EventInOrder :
      Operation → Event → List Queued → World D → List Queued → World D → Type 0
  EventInOrder op event queued w queued' middle =
      AllChanges queued'
      × ((end : World D)
          → Runs (run_queue D parse_lsn queued') middle tt end
          → (v : World D) × Runs (run_queue D parse_lsn queued) w tt v
            × Runs (settle D parse_lsn op event) v tt end)

  -- A mutation that was queued after a lookup.
  pub queued_last :
      KeepsCatalog D
      → (queued : List Queued) (q : Queued) (schema table : String) (w w' end : World D)
        {types : Types}
      → AllChanges queued
      → Runs (table_columns D schema table) w types w'
      → Runs (run_queue D parse_lsn (queued ++ q ∷ [])) w' tt end
      → (v : World D) × Runs (run_queue D parse_lsn queued) w tt v
        × (looked : World D) × Runs (table_columns D schema table) v types looked
        × Runs (run_one D parse_lsn q) looked tt end
  queued_last keeps queued q schema table w w' end changes found ran =
      let (looked, before, last) = run_queue-++ D parse_lsn queued q w' end ran in
      let (v, first, later) =
        lookup_delayed D parse_lsn keeps queued schema table w w' looked changes found before in
      (v, first, looked, later, last)

  -- The mutation by itself, from its two checks and its lookup.
  pub mutation_runs :
      (event : Event) (v looked end : World D) {types : Types}
      → map_error (permanent_event event.id) (verify_columns event) ≡ ok tt
      → Runs (table_columns D event.schema event.table) v types looked
      → Runs (apply_operation D parse_lsn event.operation event types) looked tt end
      → Runs (apply_mutation D parse_lsn event) v tt end
  unfolding apply_mutation
  mutation_runs event v looked end verified found ran =
      Runs-checked (map_error (permanent_event event.id) (verify_columns event)) _ verified (
        Runs-join (table_columns D event.schema event.table)
          (λ types. apply_operation D parse_lsn event.operation event types) found ran)

  abbrev pub verified : Event → Result (Unit {0})
  verified event = map_error (permanent_event event.id) (verify_columns event)

  pub nothing_left :
      (w : World D) {end : World D}
      → Runs (run_queue D parse_lsn []) w tt end
      → Runs (pure tt) w tt end
  unfolding run_queue
  nothing_left w h = h
