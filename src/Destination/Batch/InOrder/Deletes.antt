-- ===== src/Destination/Batch/InOrder/Deletes.antt =====
-- The queued deletes of `ApplyBatch` (internal/destination/applier.go).
use pg_live_sync.Prelude.{◌≡◌, sym, ap, ◌∙◌, ℕ, String, List, [], ◌∷◌, ◌++◌}
use mathlib.Core.Path.{subst}
use pg_live_sync.Errclass.{batch_error, Result, ok}
use pg_live_sync.Action.{Action, pure, lift, map_error, ◌>>=◌, ◌>>◌}
use pg_live_sync.Action.Runs.{Runs, Runs-check, Runs-checked, Runs-split, pure-Runs, map_error-Runs}
use pg_live_sync.Cdc.{Event, delete_op}
use pg_live_sync.Destination.Sql.{Types, qualified}
use pg_live_sync.Destination.Rows.{Param, lsn, transcode_row, permanent_event}
use pg_live_sync.Destination.Database.{Database, guarded_delete}
use pg_live_sync.Destination.Columns.{World, table_columns}
use pg_live_sync.Destination.Apply.{exec_with_poison, apply_operation, apply_delete}
use pg_live_sync.Destination.Upserts.{LsnParser, description}
use pg_live_sync.Destination.Batch.{Queued, run_one, run_queue, queue_delete}
use pg_live_sync.Destination.Batch.InOrder.{settle}
use pg_live_sync.Destination.Batch.InOrder.Delays.{KeepsCatalog, run_one-exec}
use pg_live_sync.Destination.Batch.InOrder.Mutations.{
  AllChanges, one_more, EventInOrder, queued_last, mutation_runs, verified,
}

module _ (D : Database) (parse_lsn : LsnParser) where
  abbrev keyed : Event → Result (List String × List Param)
  keyed event = map_error (permanent_event event.id) (transcode_row event.key)

  abbrev queued_delete : ℕ → Event → Types → List String × List Param → Queued
  queued_delete i event types key = record {
    index = i;
    event = event;
    statement = guarded_delete (qualified event.schema event.table) key.0 types;
    parameters = key.1 ++ lsn event.source.commit_lsn ∷ [];
  }

  -- The parts of `queue_delete` after its check, and after its lookup.
  abbrev delete_by : ℕ → Event → List Queued → Types → Action (World D) (List Queued)
  delete_by i event queued types =
      lift (keyed event) >>= λ key. pure (queued ++ queued_delete i event types key ∷ [])

  abbrev delete_after : ℕ → Event → List Queued → Action (World D) (List Queued)
  delete_after i event queued =
      table_columns D event.schema event.table >>= delete_by i event queued

  delete_runs :
      (event : Event) (key : List String × List Param) (types : Types) (i : ℕ) (v end : World D)
      → event.operation ≡ delete_op
      → keyed event ≡ ok key
      → Runs (run_one D parse_lsn (queued_delete i event types key)) v tt end
      → Runs (apply_operation D parse_lsn event.operation event types) v tt end
  unfolding apply_operation apply_delete
  delete_runs event key types i v end at is_key ran =
      ap (λ op. apply_operation D parse_lsn op event types v) at
      ∙ Runs-checked (keyed event)
          (λ key.
            exec_with_poison D parse_lsn
              (guarded_delete (qualified event.schema event.table) key.0 types)
              (key.1 ++ lsn event.source.commit_lsn ∷ []) (description "delete" event))
          is_key
          (run_one-exec D parse_lsn (queued_delete i event types key) (description "delete" event) v
            ran)

  pub delete_in_order :
      KeepsCatalog D
      → (i : ℕ) (event : Event) (queued : List Queued) (w : World D) {queued' : List Queued}
        {middle : World D}
      → event.operation ≡ delete_op
      → AllChanges queued
      → Runs (queue_delete D parse_lsn i event queued) w queued' middle
      → EventInOrder D parse_lsn delete_op event queued w queued' middle
  unfolding queue_delete settle
  delete_in_order keeps i event queued w {queued'} {middle} at changes h =
      let (_, is_verified, h1) =
        Runs-check (verified D parse_lsn event) (λ _. delete_after i event queued) w
          (map_error-Runs (batch_error i)
            (lift (verified D parse_lsn event) >> delete_after i event queued) w h) in
      let (types, w', found, h2) =
        Runs-split (table_columns D event.schema event.table) (delete_by i event queued) w h1 in
      let (key, is_key, h3) =
        Runs-check (keyed event) (λ key. pure (queued ++ queued_delete i event types key ∷ [])) w'
          h2 in
      let q = queued_delete i event types key in
      let (same, there) = pure-Runs (queued ++ q ∷ []) w' h3 in
      (
        subst AllChanges same (one_more queued q changes tt),
        λ end ran.
            let (v, before, looked, later, last) =
              queued_last D parse_lsn keeps queued q event.schema event.table w w' end changes found
                (subst (λ s. Runs (run_queue D parse_lsn (queued ++ q ∷ [])) s tt end) (sym there)
                  (subst (λ l. Runs (run_queue D parse_lsn l) middle tt end) (sym same) ran)) in
            (
              v,
              before,
              mutation_runs D parse_lsn event v looked end is_verified later
                  (delete_runs event key types i looked end at is_key last),
            ),
      )
