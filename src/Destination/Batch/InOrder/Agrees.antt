-- ===== src/Destination/Batch/InOrder/Agrees.antt =====
-- `ApplyBatch` of internal/destination/applier.go queues the mutations; the outcome is that of running
-- them in order.
use pg_live_sync.Prelude.{◌≡◌, refl, sym, ◌∙◌, ℕ, suc, Bool, true, false, List, [], ◌∷◌}
use mathlib.Core.Path.{subst}
use pg_live_sync.Errclass.{wrapf, batch_error}
use pg_live_sync.Action.{Action, pure, map_error, ◌>>=◌, ◌>>◌}
use pg_live_sync.Action.Runs.{
  Runs, Runs-check, Runs-split, Runs-join, pure-Runs, lift-Runs, map_error-Runs,
}
use pg_live_sync.Cdc.{Event, Operation, insert_op, update_op, delete_op, truncate_op, other_op}
use pg_live_sync.Destination.Database.{Database}
use pg_live_sync.Destination.Columns.{World}
use pg_live_sync.Destination.Apply.{apply_truncate_batched, apply_operation}
use pg_live_sync.Destination.Upserts.{LsnParser}
use pg_live_sync.Destination.Batch.{
  Queued, at_index, run_queue, close_batch, flush, queue_event, mutate_batch, check_batch,
  mark_batch, apply_batch,
}
use pg_live_sync.Destination.Batch.InOrder.{settle, in_order}
use pg_live_sync.Destination.Batch.InOrder.Delays.{KeepsCatalog}
use pg_live_sync.Destination.Batch.InOrder.Mutations.{
  AllChanges, flushed, EventInOrder, nothing_left,
}
use pg_live_sync.Destination.Batch.InOrder.Deletes.{delete_in_order}
use pg_live_sync.Destination.Batch.InOrder.Upserts.{upsert_in_order}

module _ (D : Database) (parse_lsn : LsnParser) where
  truncate_in_order :
      (i : ℕ) (event : Event) (queued : List Queued) (w : World D) {queued' : List Queued}
      {middle : World D}
      → Runs (queue_event D parse_lsn truncate_op i event queued) w queued' middle
      → EventInOrder D parse_lsn truncate_op event queued w queued' middle
  unfolding queue_event settle
  truncate_in_order i event queued w {queued'} {middle} h =
      let truncate = apply_truncate_batched D parse_lsn event in
      let (_, v, first, h1) =
        Runs-split (flush D parse_lsn queued) (λ _. at_index i truncate >> pure []) w h in
      let (_, done, second, h2) = Runs-split (at_index i truncate) (λ _. pure []) v h1 in
      let (same, there) = pure-Runs [] done h2 in
      (
        subst AllChanges same tt,
        λ end ran.
            let nothing : Runs (run_queue D parse_lsn []) done tt end =
              subst (λ s. Runs (run_queue D parse_lsn []) s tt end) (sym there)
                (subst (λ l. Runs (run_queue D parse_lsn l) middle tt end) (sym same) ran) in
            (
              v,
              flushed D parse_lsn queued w first,
              map_error-Runs (batch_error i) truncate v second
                  ∙ nothing_left D parse_lsn done nothing,
            ),
      )

  event_in_order :
      KeepsCatalog D
      → (op : Operation) (i : ℕ) (event : Event) (queued : List Queued) (w : World D)
        {queued' : List Queued} {middle : World D}
      → event.operation ≡ op
      → AllChanges queued
      → Runs (queue_event D parse_lsn op i event queued) w queued' middle
      → EventInOrder D parse_lsn op event queued w queued' middle
  unfolding queue_event settle apply_operation
  event_in_order keeps truncate_op i event queued w at changes h =
      truncate_in_order i event queued w h
  event_in_order keeps delete_op i event queued w at changes h =
      delete_in_order D parse_lsn keeps i event queued w at changes h
  event_in_order keeps insert_op i event queued w at changes h =
      upsert_in_order D parse_lsn keeps insert_op i event queued w (λ event types. refl) at changes
        h
  event_in_order keeps update_op i event queued w at changes h =
      upsert_in_order D parse_lsn keeps update_op i event queued w (λ event types. refl) at changes
        h
  event_in_order keeps (other_op s) i event queued w {queued'} {middle} at changes h =
      let (same, there) = pure-Runs queued w h in
      (
        subst AllChanges same changes,
        λ end ran. (
          end,
          subst (λ (v : World D). Runs (run_queue D parse_lsn queued) v tt end) (sym there)
              (subst (λ l. Runs (run_queue D parse_lsn l) middle tt end) (sym same) ran),
          refl,
        ),
      )

  mutate_in_order :
      KeepsCatalog D
      → (i : ℕ) (events : List Event) (fresh : List Bool) (queued : List Queued) (w : World D)
        {end : World D}
      → AllChanges queued
      → Runs (mutate_batch D parse_lsn i events fresh queued) w tt end
      → (v : World D) × Runs (run_queue D parse_lsn queued) w tt v
        × Runs (in_order D parse_lsn events fresh) v tt end
  unfolding mutate_batch in_order
  mutate_in_order keeps i [] fresh queued w {end} changes h =
      (end, flushed D parse_lsn queued w h, refl)
  mutate_in_order keeps i (event ∷ events) [] queued w {end} changes h =
      (end, flushed D parse_lsn queued w h, refl)
  mutate_in_order keeps i (event ∷ events) (false ∷ fresh) queued w changes h =
      mutate_in_order keeps (suc i) events fresh queued w changes h
  mutate_in_order keeps i (event ∷ events) (true ∷ fresh) queued w changes h =
      let (queued', middle, first, rest) =
        Runs-split (queue_event D parse_lsn event.operation i event queued)
          (mutate_batch D parse_lsn (suc i) events fresh) w h in
      let (changes', event_later) =
        event_in_order keeps event.operation i event queued w refl changes first in
      let (after, ran, later) =
        mutate_in_order keeps (suc i) events fresh queued' middle changes' rest in
      let (v, before, settled) = event_later after ran in
      (
        v,
        before,
        Runs-join (settle D parse_lsn event.operation event)
            (λ _. in_order D parse_lsn events fresh) settled later,
      )

  -- The markers, and then the mutations of the events with new markers, one by one.
  abbrev pub AppliesInOrder : List Event → World D → World D → Type 0
  AppliesInOrder events w end =
      (fresh : List Bool) × (marked : World D) × Runs (mark_batch D parse_lsn 0 events) w fresh
        marked
      × Runs (in_order D parse_lsn events fresh) marked tt end

  -- An ApplyBatch without an error leaves exactly what is left when the markers are set, and then
  -- the mutation of each event whose marker is new is run by itself, in the order of the events:
  -- neither the queueing, nor the early flushes, nor the columns that are looked up while mutations
  -- wait make a difference.
  pub apply_batch-AppliesInOrder :
      KeepsCatalog D
      → (event : Event) (events : List Event) (w : World D) {end : World D}
      → Runs (apply_batch D parse_lsn (event ∷ events)) w tt end
      → AppliesInOrder (event ∷ events) w end
  unfolding apply_batch close_batch run_queue
  apply_batch-AppliesInOrder keeps event events w {end} h =
      let all = event ∷ events in
      let after_close : List Bool → Action (World D) Unit = λ fresh.
        close_batch D parse_lsn "flush marker batch: %w"
        >> mutate_batch D parse_lsn 0 all fresh [] in
      let (_, _, h1) =
        Runs-check (check_batch 0 all) (λ _. mark_batch D parse_lsn 0 all >>= after_close) w h in
      let (fresh, marked, first, h2) = Runs-split (mark_batch D parse_lsn 0 all) after_close w h1 in
      let (_, closed, closing, h3) =
        Runs-split (close_batch D parse_lsn "flush marker batch: %w")
          (λ _. mutate_batch D parse_lsn 0 all fresh []) marked h2 in
      let same =
        (lift-Runs (map_error (wrapf "flush marker batch: %w" []) (D.close_batch marked.db)) marked
          closing).1 in
      let (v, nothing, settled) = mutate_in_order keeps 0 all fresh [] closed tt h3 in
      let start : marked ≡ v = same ∙ (pure-Runs tt closed nothing).1 in
      (
        fresh,
        marked,
        first,
        subst (λ s. Runs (in_order D parse_lsn all fresh) s tt end) (sym start) settled,
      )
