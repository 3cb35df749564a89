-- ===== src/Destination/Batch/Markers.antt =====
-- The markers of `ApplyBatch` (internal/destination/applier.go).
use pg_live_sync.Prelude.{
  ◌≡◌, refl, ℕ, suc, String, Bool, true, false, List, [], ◌∷◌, ◌++◌, is_empty, All,
}
use pg_live_sync.Errclass.{Error, Result, ok, err, batch_error}
use pg_live_sync.Action.{Action, lift, map_error}
use pg_live_sync.Action.Keeps.{Keeps, Keeps-pure, Keeps-bind, keeps_rules}
use pg_live_sync.Action.Ensures.{Returns, Returns-pure, Returns-bind, Keeps-knowing}
use pg_live_sync.Cdc.{Event, Operation, insert_op, update_op, delete_op, truncate_op, other_op}
use pg_live_sync.Destination.Sql.{Types}
use pg_live_sync.Destination.Database.{Database}
use pg_live_sync.Destination.Database.Laws.{Laws, leaves_markers}
use pg_live_sync.Destination.Columns.{table_columns}
use pg_live_sync.Destination.Upserts.{LsnParser, Upsert}
use pg_live_sync.Destination.Apply.Markers.{
  IsMarked, exec-IsMarked, mark-IsMarked, columns-IsMarked, truncate_batched-IsMarked,
  update-IsMarked,
}
use pg_live_sync.Destination.Batch.{
  at_index, Queued, mark_one, mark_batch, close_batch, run_one, run_queue, flush, queue_delete,
  prepared, enqueue, queue_upsert, queue_event, mutate_batch,
}

-- The statements that are waiting do not touch the markers.
abbrev pub AreHarmless : List Queued → Type 0
AreHarmless = All (λ (q : Queued). leaves_markers q.statement ≡ true)

AreHarmless-append :
    (queued : List Queued) (q : Queued)
    → AreHarmless queued
    → leaves_markers q.statement ≡ true
    → AreHarmless (queued ++ q ∷ [])
AreHarmless-append [] q h k = (k, tt)
AreHarmless-append (p ∷ queued) q (l, h) k = (l, AreHarmless-append queued q h k)

unmapped : {A : Type 0} (f : Error → Error) (r : Result A) {a : A} → map_error f r ≡ ok a → r ≡ ok a
unmapped f (ok b) e = e
unmapped f (err x) e = cc

module _ {S A : Type 0} where
  Keeps-at_index : {P : S → Type 0} (i : ℕ) (m : Action S A) → Keeps P m → Keeps P (at_index i m)
  Keeps-at_index i m k = record { after = λ s h. k.after s h }

  Returns-at_index :
      {R : A → Type 0} (i : ℕ) (m : Action S A) → Returns R m → Returns R (at_index i m)
  Returns-at_index i m k = record {
    answer = λ s e. k.answer s (unmapped (batch_error i) (m s).0 e);
  }

module _ {D : Database} (laws : Laws D) (parse_lsn : LsnParser) (id : String) where
  mark_one-IsMarked : (i : ℕ) (event : Event) → Keeps (IsMarked D id) (mark_one D parse_lsn i event)
  unfolding mark_one
  mark_one-IsMarked i event = mark-IsMarked laws parse_lsn id _ event.id event.source.commit_lsn

  ruleset rules = (
    keeps_rules, Keeps-at_index, exec-IsMarked, mark_one-IsMarked, columns-IsMarked,
    truncate_batched-IsMarked, update-IsMarked,
  )

  pub mark_batch-IsMarked :
      (i : ℕ) (events : List Event) → Keeps (IsMarked D id) (mark_batch D parse_lsn i events)
  unfolding mark_batch
  mark_batch-IsMarked i [] = search rules
  mark_batch-IsMarked i (event ∷ events) =
      Keeps-bind (mark_one D parse_lsn i event) _ (mark_one-IsMarked i event) (λ fresh.
        Keeps-bind (mark_batch D parse_lsn (suc i) events) _ (mark_batch-IsMarked (suc i) events)
          (λ rest. Keeps-pure (fresh ∷ rest)))

  pub close_batch-IsMarked : (what : String) → Keeps (IsMarked D id) (close_batch D parse_lsn what)
  unfolding close_batch
  close_batch-IsMarked what = record { after = λ w h. h }

  run_queue-IsMarked :
      (queued : List Queued)
      → AreHarmless queued
      → Keeps (IsMarked D id) (run_queue D parse_lsn queued)
  unfolding run_queue run_one
  run_queue-IsMarked [] h = search rules
  run_queue-IsMarked (q ∷ queued) (harmless, h) =
      Keeps-bind (run_one D parse_lsn q) _
        (Keeps-at_index q.index _
          (exec-IsMarked laws parse_lsn id q.statement q.parameters _ harmless))
        (λ _. run_queue-IsMarked queued h)

  flush-IsMarked :
      (queued : List Queued) → AreHarmless queued → Keeps (IsMarked D id) (flush D parse_lsn queued)
  unfolding flush
  flush-IsMarked [] h = search rules
  flush-IsMarked (q ∷ queued) h =
      Keeps-bind (run_queue D parse_lsn (q ∷ queued)) _ (run_queue-IsMarked (q ∷ queued) h)
        (λ _. close_batch-IsMarked _)

  prepared-IsMarked : (i : ℕ) (event : Event) → Keeps (IsMarked D id) (prepared D parse_lsn i event)
  unfolding prepared
  prepared-IsMarked i event = search (rules, laws)

  queue_delete-IsMarked :
      (i : ℕ) (event : Event) (queued : List Queued)
      → Keeps (IsMarked D id) (queue_delete D parse_lsn i event queued)
  unfolding queue_delete
  queue_delete-IsMarked i event queued = search (rules, laws)

  enqueue-IsMarked :
      (plain : Bool) (i : ℕ) (event : Event) (queued : List Queued) (types : Types) (u : Upsert)
      → AreHarmless queued
      → Keeps (IsMarked D id) (enqueue D parse_lsn plain i event queued types u)
  unfolding enqueue
  enqueue-IsMarked true i event queued types u h = Keeps-pure _
  enqueue-IsMarked false i event queued types u h =
      Keeps-bind (flush D parse_lsn queued) _ (flush-IsMarked queued h) (λ _. search (rules, laws))

  queue_upsert-IsMarked :
      (i : ℕ) (event : Event) (queued : List Queued)
      → AreHarmless queued
      → Keeps (IsMarked D id) (queue_upsert D parse_lsn i event queued)
  unfolding queue_upsert
  queue_upsert-IsMarked i event queued h =
      Keeps-bind (prepared D parse_lsn i event) _ (prepared-IsMarked i event)
        (λ p. enqueue-IsMarked (is_empty event.unchanged_columns) i event queued p.0 p.1 h)

  queue_event-IsMarked :
      (operation : Operation) (i : ℕ) (event : Event) (queued : List Queued)
      → AreHarmless queued
      → Keeps (IsMarked D id) (queue_event D parse_lsn operation i event queued)
  unfolding queue_event
  queue_event-IsMarked truncate_op i event queued h =
      Keeps-bind (flush D parse_lsn queued) _ (flush-IsMarked queued h) (λ _. search (rules, laws))
  queue_event-IsMarked delete_op i event queued h = queue_delete-IsMarked i event queued
  queue_event-IsMarked insert_op i event queued h = queue_upsert-IsMarked i event queued h
  queue_event-IsMarked update_op i event queued h = queue_upsert-IsMarked i event queued h
  queue_event-IsMarked (other_op s) i event queued h = Keeps-pure queued

-- What is queued never touches the markers.
module _ {D : Database} (parse_lsn : LsnParser) where
  enqueue-AreHarmless :
      (plain : Bool) (i : ℕ) (event : Event) (queued : List Queued) (types : Types) (u : Upsert)
      → AreHarmless queued
      → Returns AreHarmless (enqueue D parse_lsn plain i event queued types u)
  unfolding enqueue
  enqueue-AreHarmless true i event queued types u h =
      Returns-pure _ (AreHarmless-append queued _ h refl)
  enqueue-AreHarmless false i event queued types u h =
      Returns-bind (flush D parse_lsn queued) _
        (λ _. Returns-bind (at_index i _) _ (λ _. Returns-pure [] tt))

  queue_event-AreHarmless :
      (operation : Operation) (i : ℕ) (event : Event) (queued : List Queued)
      → AreHarmless queued
      → Returns AreHarmless (queue_event D parse_lsn operation i event queued)
  unfolding queue_event queue_delete queue_upsert
  queue_event-AreHarmless truncate_op i event queued h =
      Returns-bind (flush D parse_lsn queued) _
        (λ _. Returns-bind (at_index i _) _ (λ _. Returns-pure [] tt))
  queue_event-AreHarmless delete_op i event queued h = Returns-at_index i _ (
      Returns-bind (lift _) _ (λ _.
        Returns-bind (table_columns D event.schema event.table) _ (λ types.
          Returns-bind (lift _) _ (λ key. Returns-pure _ (AreHarmless-append queued _ h refl)))))
  queue_event-AreHarmless insert_op i event queued h =
      Returns-bind (prepared D parse_lsn i event) _
        (λ p. enqueue-AreHarmless (is_empty event.unchanged_columns) i event queued p.0 p.1 h)
  queue_event-AreHarmless update_op i event queued h =
      Returns-bind (prepared D parse_lsn i event) _
        (λ p. enqueue-AreHarmless (is_empty event.unchanged_columns) i event queued p.0 p.1 h)
  queue_event-AreHarmless (other_op s) i event queued h = Returns-pure queued h

module _ {D : Database} (laws : Laws D) (parse_lsn : LsnParser) (id : String) where
  pub mutate_batch-IsMarked :
      (i : ℕ) (events : List Event) (fresh : List Bool) (queued : List Queued)
      → AreHarmless queued
      → Keeps (IsMarked D id) (mutate_batch D parse_lsn i events fresh queued)
  unfolding mutate_batch
  mutate_batch-IsMarked i [] [] queued h = flush-IsMarked laws parse_lsn id queued h
  mutate_batch-IsMarked i [] (f ∷ fresh) queued h = flush-IsMarked laws parse_lsn id queued h
  mutate_batch-IsMarked i (event ∷ events) [] queued h = flush-IsMarked laws parse_lsn id queued h
  mutate_batch-IsMarked i (event ∷ events) (false ∷ fresh) queued h =
      mutate_batch-IsMarked (suc i) events fresh queued h
  mutate_batch-IsMarked i (event ∷ events) (true ∷ fresh) queued h =
      Keeps-knowing (queue_event D parse_lsn event.operation i event queued) _
        (queue_event-IsMarked laws parse_lsn id event.operation i event queued h)
        (queue_event-AreHarmless parse_lsn event.operation i event queued h)
        (λ queued' k. mutate_batch-IsMarked (suc i) events fresh queued' k)
