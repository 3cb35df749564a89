-- ===== src/Destination/Batch.antt =====
-- `ApplyBatch` of internal/destination/applier.go: a whole source transaction in one destination
-- transaction, first all markers and then the mutations of the events whose marker is new.
pub mod Markers
pub mod Replays
pub mod InOrder
use pg_live_sync.Prelude.{
  ℕ, suc, String, Bool, true, false, Option, none, some, List, [], ◌∷◌, ◌++◌, is_empty, concat,
  if◌then◌else◌,
}
use pg_live_sync.Errclass.{Error, wrapf, batch_error, Result, ok, err}
use pg_live_sync.Action.{Action, pure, fail, lift, map_error, continue, ◌>>=◌, ◌>>◌}
use pg_live_sync.Cdc.{
  Event, Operation, insert_op, update_op, delete_op, truncate_op, other_op, validate,
}
use pg_live_sync.Destination.Sql.{Types, qualified}
use pg_live_sync.Destination.Rows.{
  Param, lsn, verify_columns, transcode_row, permanent_event, poison_or_wrap,
}
use pg_live_sync.Destination.Database.{Database, Statement, upsert, guarded_delete}
use pg_live_sync.Destination.Columns.{World, table_columns}
use pg_live_sync.Destination.Apply.{
  exec_with_poison, mark, apply_truncate_batched, apply_update_preserving,
}
use pg_live_sync.Destination.Upserts.{
  LsnParser, Upsert, prepare_upsert, check_idents, description, bind,
}

-- &BatchError{Index: i, Event: event, Err: err}; the event is the one at the index.
abbrev pub at_index {ℓ} : {S A : Type ℓ} → ℕ → Action S A → Action S A
at_index i m s = let (r, s') = m s in (map_error (batch_error i) r, s')

-- queuedExec, with the statement that was queued for it.
pub record Queued : Type 0 where
  pub index : ℕ
  pub event : Event
  pub statement : Statement
  pub parameters : List Param

-- The checks of the loop that queues the markers.
unfoldable pub check_batch : ℕ → List Event → Result (Unit {0})
unfolding bind
check_batch i [] = ok tt
check_batch i (event ∷ events) = bind (map_error (batch_error i) (validate event)) λ valid.
    bind (map_error (batch_error i) (check_idents event)) λ named. check_batch (suc i) events

module _ (D : Database) (parse_lsn : LsnParser) where
  unfoldable pub mark_one : ℕ → Event → Action (World D) Bool
  unfolding mark
  mark_one i event =
      mark D parse_lsn
        (λ e. batch_error i (poison_or_wrap e (concat ("record applied event " ∷ event.id ∷ []))))
        event.id event.source.commit_lsn

  -- Phase 1.
  unfoldable pub mark_batch : ℕ → List Event → Action (World D) (List Bool)
  unfolding mark_one
  mark_batch i [] = pure []
  mark_batch i (event ∷ events) = do
    fresh ← mark_one i event
    rest ← mark_batch (suc i) events
    pure (fresh ∷ rest)

  unfoldable pub close_batch : String → Action (World D) Unit
  close_batch what w = (map_error (wrapf what []) (D.close_batch w.db), w)

  unfoldable pub run_one : Queued → Action (World D) Unit
  unfolding exec_with_poison
  run_one q =
      at_index q.index
        (exec_with_poison D parse_lsn q.statement q.parameters (description "mutation for" q.event))

  unfoldable pub run_queue : List Queued → Action (World D) Unit
  unfolding run_one
  run_queue [] = pure tt
  run_queue (q ∷ queued) = do run_one q; run_queue queued

  unfoldable pub flush : List Queued → Action (World D) Unit
  unfolding run_queue close_batch
  flush [] = pure tt
  flush (q ∷ queued) = do run_queue (q ∷ queued); close_batch "flush mutation batch: %w"

  unfoldable pub queue_delete : ℕ → Event → List Queued → Action (World D) (List Queued)
  queue_delete i event queued = at_index i (do
    lift (map_error (permanent_event event.id) (verify_columns event))
    types ← table_columns D event.schema event.table
    key ← lift (map_error (permanent_event event.id) (transcode_row event.key))
    pure (
        queued
        ++ (record {
          index = i;
          event = event;
          statement = guarded_delete (qualified event.schema event.table) key.0 types;
          parameters = key.1 ++ lsn event.source.commit_lsn ∷ [];
        })
          ∷ []))

  -- The column types and the parameters of an insert or update.
  unfoldable pub prepared : ℕ → Event → Action (World D) (Types × Upsert)
  unfolding prepare_upsert
  prepared i event = at_index i (do
    lift (map_error (permanent_event event.id) (verify_columns event))
    types ← table_columns D event.schema event.table
    u ← lift (prepare_upsert event)
    pure (types, u))

  -- An insert or update is queued, or, where it keeps values that did not change, run at once.
  unfoldable pub enqueue :
      Bool → ℕ → Event → List Queued → Types → Upsert → Action (World D) (List Queued)
  unfolding flush apply_update_preserving
  enqueue true i event queued types u = pure (
      queued
      ++ (record {
        index = i;
        event = event;
        statement = upsert (qualified event.schema event.table) u.columns u.key_columns types;
        parameters = u.parameters;
      })
        ∷ [])
  enqueue false i event queued types u = do
    flush queued
    at_index i (
        apply_update_preserving D parse_lsn (qualified event.schema event.table) types u
          (description "upsert" event))
    pure []

  unfoldable pub queue_upsert : ℕ → Event → List Queued → Action (World D) (List Queued)
  unfolding prepared enqueue
  queue_upsert i event queued = do
    (types, u) ← prepared i event
    enqueue (is_empty event.unchanged_columns) i event queued types u

  -- The body of the loop of phase 2, for an event whose marker is new.
  unfoldable pub queue_event : Operation → ℕ → Event → List Queued → Action (World D) (List Queued)
  unfolding queue_delete queue_upsert flush apply_truncate_batched
  queue_event truncate_op i event queued = do
    flush queued
    at_index i (apply_truncate_batched D parse_lsn event)
    pure []
  queue_event delete_op i event queued = queue_delete i event queued
  queue_event insert_op i event queued = queue_upsert i event queued
  queue_event update_op i event queued = queue_upsert i event queued
  queue_event (other_op s) i event queued = pure queued

  -- Phase 2.
  unfoldable pub mutate_batch : ℕ → List Event → List Bool → List Queued → Action (World D) Unit
  unfolding queue_event flush
  mutate_batch i (event ∷ events) (true ∷ fresh) queued = do
    queued' ← queue_event event.operation i event queued
    mutate_batch (suc i) events fresh queued'
  mutate_batch i (event ∷ events) (false ∷ fresh) queued = mutate_batch (suc i) events fresh queued
  mutate_batch i _ _ queued = flush queued

  unfoldable pub apply_batch : List Event → Action (World D) Unit
  unfolding check_batch mark_batch close_batch mutate_batch
  apply_batch [] = pure tt
  apply_batch (event ∷ events) = do
    lift (check_batch 0 (event ∷ events))
    fresh ← mark_batch 0 (event ∷ events)
    close_batch "flush marker batch: %w"
    mutate_batch 0 (event ∷ events) fresh []
