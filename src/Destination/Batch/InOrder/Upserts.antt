-- ===== src/Destination/Batch/InOrder/Upserts.antt =====
-- The inserts and updates of `ApplyBatch` (internal/destination/applier.go), queued or run at once.
use pg_live_sync.Prelude.{
  ◌≡◌, refl, sym, ap, ◌∙◌, ℕ, Bool, true, false, List, [], ◌∷◌, ◌++◌, is_empty, if◌then◌else◌,
}
use mathlib.Core.Path.{subst}
use pg_live_sync.Errclass.{batch_error, ok}
use pg_live_sync.Action.{Action, pure, lift, ◌>>=◌, ◌>>◌}
use pg_live_sync.Action.Runs.{Runs, Runs-check, Runs-checked, Runs-split, pure-Runs, map_error-Runs}
use pg_live_sync.Cdc.{Event, Operation}
use pg_live_sync.Destination.Sql.{Types, qualified}
use pg_live_sync.Destination.Database.{Database, upsert}
use pg_live_sync.Destination.Columns.{World, table_columns}
use pg_live_sync.Destination.Apply.{
  exec_with_poison, apply_update_preserving, apply_operation, apply_upsert, apply_mutation,
}
use pg_live_sync.Destination.Upserts.{LsnParser, Upsert, prepare_upsert, description}
use pg_live_sync.Destination.Batch.{
  Queued, at_index, run_queue, flush, prepared, enqueue, queue_upsert,
}
use pg_live_sync.Destination.Batch.InOrder.Delays.{KeepsCatalog, lookup_delayed, run_one-exec}
use pg_live_sync.Destination.Batch.InOrder.Mutations.{
  AllChanges, one_more, flushed, queued_last, mutation_runs, verified, nothing_left,
}

module _ (D : Database) (parse_lsn : LsnParser) where
  abbrev prepared_with : Event → Types → Action (World D) (Types × Upsert)
  prepared_with event types = lift (prepare_upsert event) >>= λ u. pure (types, u)

  abbrev prepared_after : Event → Action (World D) (Types × Upsert)
  prepared_after event = table_columns D event.schema event.table >>= prepared_with event

  -- What `prepared` looked up.
  prepared_in :
      (i : ℕ) (event : Event) (w : World D) {types : Types} {u : Upsert} {w' : World D}
      → Runs (prepared D parse_lsn i event) w (types, u) w'
      → (verified D parse_lsn event ≡ ok tt)
        × Runs (table_columns D event.schema event.table) w types w'
        × (prepare_upsert event ≡ ok u)
  unfolding prepared
  prepared_in i event w {types} {u} {w'} h =
      let (_, is_verified, h1) =
        Runs-check (verified D parse_lsn event) (λ _. prepared_after event) w
          (map_error-Runs (batch_error i)
            (lift (verified D parse_lsn event) >> prepared_after event) w h) in
      let (types', looked, found, h2) =
        Runs-split (table_columns D event.schema event.table) (prepared_with event) w h1 in
      let (u', is_prepared, h3) =
        Runs-check (prepare_upsert event) (λ u. pure (types', u)) looked h2 in
      let (same, there) = pure-Runs (types', u') looked h3 in
      (is_verified, (found ∙ λ i. (ok (same i).0, there i)), (is_prepared ∙ λ i. ok (same i).1))

  abbrev IsUpsert : Operation → Type 0
  IsUpsert op =
      (event : Event) (types : Types)
      → apply_operation D parse_lsn op event types ≡ apply_upsert D parse_lsn event types

  -- What is run for an insert or update that is prepared.
  abbrev upsert_now : Event → Types → Upsert → Action (World D) Unit
  upsert_now event types u =
      if is_empty event.unchanged_columns
      then exec_with_poison D parse_lsn
          (upsert (qualified event.schema event.table) u.columns u.key_columns types) u.parameters
          (description "upsert" event)
      else apply_update_preserving D parse_lsn (qualified event.schema event.table) types u
          (description "upsert" event)

  upsert_runs :
      (op : Operation) (event : Event) (types : Types) (u : Upsert) (v end : World D)
      → IsUpsert op
      → event.operation ≡ op
      → prepare_upsert event ≡ ok u
      → Runs (upsert_now event types u) v tt end
      → Runs (apply_operation D parse_lsn event.operation event types) v tt end
  unfolding apply_upsert
  upsert_runs op event types u v end is at is_prepared ran =
      ap (λ o. apply_operation D parse_lsn o event types v) at
      ∙ (λ i. is event types i v)
      ∙ Runs-checked (prepare_upsert event) (upsert_now event types) is_prepared ran

  abbrev queued_upsert : ℕ → Event → Types → Upsert → Queued
  queued_upsert i event types u = record {
    index = i;
    event = event;
    statement = upsert (qualified event.schema event.table) u.columns u.key_columns types;
    parameters = u.parameters;
  }

  -- The same for the two ways of an insert or update.
  abbrev UpsertInOrder :
      Event → List Queued → World D → Types → Upsert → List Queued → World D → Type 0
  UpsertInOrder event queued w types u queued' middle =
      AllChanges queued'
      × ((end : World D)
          → Runs (run_queue D parse_lsn queued') middle tt end
          → (v : World D) × Runs (run_queue D parse_lsn queued) w tt v
            × (looked : World D) × Runs (table_columns D event.schema event.table) v types looked
            × Runs (upsert_now event types u) looked tt end)

  enqueued :
      KeepsCatalog D
      → (whole : Bool) (i : ℕ) (event : Event) (queued : List Queued) (types : Types) (u : Upsert)
        (w w' : World D) {queued' : List Queued} {middle : World D}
      → is_empty event.unchanged_columns ≡ whole
      → AllChanges queued
      → Runs (table_columns D event.schema event.table) w types w'
      → Runs (enqueue D parse_lsn whole i event queued types u) w' queued' middle
      → UpsertInOrder event queued w types u queued' middle
  unfolding enqueue
  enqueued keeps true i event queued types u w w' {queued'} {middle} at changes found h =
      let q = queued_upsert i event types u in
      let (same, there) = pure-Runs (queued ++ q ∷ []) w' h in
      (
        subst AllChanges same (one_more queued q changes tt),
        λ end ran.
            let (v, before, looked, later, last) =
              queued_last D parse_lsn keeps queued q event.schema event.table w w' end changes found
                (subst (λ s. Runs (run_queue D parse_lsn (queued ++ q ∷ [])) s tt end) (sym there)
                  (subst (λ l. Runs (run_queue D parse_lsn l) middle tt end) (sym same) ran)) in
            (
              v,
              before,
              looked,
              later,
              rw at (run_one-exec D parse_lsn q (description "upsert" event) looked last),
            ),
      )
  enqueued keeps false i event queued types u w w' {queued'} {middle} at changes found h =
      let update =
        apply_update_preserving D parse_lsn (qualified event.schema event.table) types u
          (description "upsert" event) in
      let (_, flushed_to, first, h1) =
        Runs-split (flush D parse_lsn queued) (λ _. at_index i update >> pure []) w' h in
      let (_, done, second, h2) = Runs-split (at_index i update) (λ _. pure []) flushed_to h1 in
      let (same, there) = pure-Runs [] done h2 in
      (
        subst AllChanges same tt,
        λ end ran.
            let (v, before, later) =
              lookup_delayed D parse_lsn keeps queued event.schema event.table w w' flushed_to
                changes found (flushed D parse_lsn queued w' first) in
            let nothing : Runs (run_queue D parse_lsn []) done tt end =
              subst (λ s. Runs (run_queue D parse_lsn []) s tt end) (sym there)
                (subst (λ l. Runs (run_queue D parse_lsn l) middle tt end) (sym same) ran) in
            (
              v,
              before,
              flushed_to,
              later,
              rw at (
                  map_error-Runs (batch_error i) update flushed_to second
                  ∙ nothing_left D parse_lsn done nothing),
            ),
      )

  pub upsert_in_order :
      KeepsCatalog D
      → (op : Operation) (i : ℕ) (event : Event) (queued : List Queued) (w : World D)
        {queued' : List Queued} {middle : World D}
      → IsUpsert op
      → event.operation ≡ op
      → AllChanges queued
      → Runs (queue_upsert D parse_lsn i event queued) w queued' middle
      → AllChanges queued'
        × ((end : World D)
            → Runs (run_queue D parse_lsn queued') middle tt end
            → (v : World D) × Runs (run_queue D parse_lsn queued) w tt v
              × Runs (apply_mutation D parse_lsn event) v tt end)
  unfolding queue_upsert
  upsert_in_order keeps op i event queued w is at changes h =
      let ((types, u), w', first, h1) =
        Runs-split (prepared D parse_lsn i event)
          (λ (p : Types × Upsert).
            enqueue D parse_lsn (is_empty event.unchanged_columns) i event queued p.0 p.1)
          w h in
      let (is_verified, found, is_prepared) = prepared_in i event w first in
      let (changes', later) =
        enqueued keeps (is_empty event.unchanged_columns) i event queued types u w w' refl changes
          found h1 in
      (
        changes',
        λ end ran.
            let (v, before, looked, found_later, last) = later end ran in
            (
              v,
              before,
              mutation_runs D parse_lsn event v looked end is_verified found_later
                  (upsert_runs op event types u looked end is at is_prepared last),
            ),
      )
