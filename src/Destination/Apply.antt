-- ===== src/Destination/Apply.antt =====
-- `Apply`, `ApplyInTx` and what they call in internal/destination/applier.go.
pub mod Parameters
pub mod Statements
pub mod Markers
pub mod Replays
pub mod Once
use pg_live_sync.Prelude.{
  ◌≡◌, refl, ℕ, ◌==◌, leb, String, Bool, true, false, not, ◌&&◌, Option, none, some, List, [], ◌∷◌,
  ◌++◌, is_empty, contains_string, concat, if◌then◌else◌,
}
use pg_live_sync.Errclass.{Error, errorf, wrapf, permanent_error, permanentf, Result, ok, err}
use pg_live_sync.Action.{Action, pure, fail, lift, map_error, continue, ◌>>=◌, ◌>>◌}
use pg_live_sync.Cdc.{
  Event, Operation, Row, insert_op, update_op, delete_op, truncate_op, other_op, validate,
}
use pg_live_sync.Destination.Sql.{Types, qualified}
use pg_live_sync.Destination.Rows.{
  Param, lsn, text, time, verify_ident, verify_columns, transcode_row, append_numbered,
  permanent_event, poison_or_wrap,
}
use pg_live_sync.Destination.Database.{
  Database, Statement, upsert, guarded_update, plain_insert, guarded_delete, truncate_table,
  advance_watermark,
}
use pg_live_sync.Destination.Columns.{World, table_columns}
use pg_live_sync.Destination.Upserts.{
  LsnParser, truncate_is_stale, keys_present, keys_changed, Upsert, Bind, bind, prepare_upsert,
  check_idents, description,
}

module _ (D : Database) (parse_lsn : LsnParser) where
  unfoldable pub executed : String → Result D.Db → Action (World D) Unit
  executed what (ok db) w = (ok tt, record w { db = db })
  executed what (err e) w = (err (poison_or_wrap e what), w)

  -- execWithPoison: a statement of the open transaction.
  unfoldable pub exec_with_poison : Statement → List Param → String → Action (World D) Unit
  unfolding executed
  exec_with_poison statement parameters what w =
      executed what (D.execute statement parameters w.db) w

  pub recorded : (Error → Error) → Result (Bool × D.Db) → Action (World D) Bool
  recorded wrap (ok (fresh, db)) w = (ok fresh, record w { db = db })
  recorded wrap (err e) w = (err (wrap e), w)

  -- The marker of an event; `wrap` is what is made of an error.
  unfoldable pub mark : (Error → Error) → String → String → Action (World D) Bool
  unfolding recorded
  mark wrap id commit_lsn w = recorded wrap (D.mark id commit_lsn w.db) w

  -- markApplied
  unfoldable pub mark_applied : String → String → Action (World D) Bool
  unfolding mark
  mark_applied id commit_lsn = mark (wrapf "record applied event %s: %w" (id ∷ [])) id commit_lsn

  parsed_watermark : String → Result (Option String) → Result ℕ
  parsed_watermark table (err e) = err (wrapf "read truncate watermark for %s: %w" (table ∷ []) e)
  parsed_watermark table (ok none) = ok 0
  parsed_watermark table (ok (some t)) = elim (parse_lsn t) [
    | none ↦ err (permanentf "corrupted truncate watermark %q for %s: %v" (t ∷ table ∷ []))
    | some n ↦ ok n
  ]

  unfoldable pub table_watermark : String → Action (World D) ℕ
  unfolding parsed_watermark
  table_watermark table w = (parsed_watermark table (D.watermark table w.db), w)

  pub event_lsn : Event → Option ℕ → Result ℕ
  event_lsn event none =
      err (permanentf "event %s: invalid commit LSN %q" (event.id ∷ event.source.commit_lsn ∷ []))
  event_lsn event (some n) = ok n

  -- TRUNCATE TABLE and the new watermark.
  pub truncate_now : Event → String → Action (World D) Unit
  unfolding exec_with_poison
  truncate_now event table = do
    exec_with_poison (truncate_table table) [] (concat ("truncate " ∷ table ∷ []))
    exec_with_poison (advance_watermark table)
        (text (some table) ∷ lsn event.source.commit_lsn ∷ [])
        (concat ("advance truncate watermark for " ∷ table ∷ []))

  -- Everything after the marker; true where the table was cleared.
  unfoldable pub truncate_marked : Event → Action (World D) Bool
  unfolding event_lsn table_watermark truncate_now truncate_is_stale
  truncate_marked event = do
    at ← lift (event_lsn event (parse_lsn event.source.commit_lsn))
    let table = qualified event.schema event.table
    watermark ← table_watermark table
    if truncate_is_stale at watermark then pure false else do truncate_now event table; pure true

  -- applyTruncateBatched: the same steps inside a batch.
  unfoldable pub apply_truncate_batched : Event → Action (World D) Unit
  unfolding event_lsn table_watermark truncate_now truncate_is_stale
  apply_truncate_batched event = do
    at ← lift (event_lsn event (parse_lsn event.source.commit_lsn))
    let table = qualified event.schema event.table
    watermark ← table_watermark table
    if truncate_is_stale at watermark then pure tt else truncate_now event table

  unfoldable pub apply_truncate_in_tx : Event → Action (World D) Bool
  unfolding mark_applied truncate_marked
  apply_truncate_in_tx event = do
    applied ← mark_applied event.id event.source.commit_lsn
    if applied then truncate_marked event else pure false

  pub insert_unseen :
      String → Types → Upsert → String → Result (Option (Option String)) → Action (World D) Unit
  unfolding exec_with_poison
  insert_unseen table types u what (ok none) =
      exec_with_poison (plain_insert table u.columns types) u.parameters what
  insert_unseen table types u what (ok (some guard)) = pure tt
  insert_unseen table types u what (err e) = fail (poison_or_wrap e what)

  unfoldable pub apply_update_preserving : String → Types → Upsert → String → Action (World D) Unit
  unfolding insert_unseen exec_with_poison
  apply_update_preserving table types u what = do
    exec_with_poison (guarded_update table u.columns u.key_columns types)
        (u.parameters ++ u.key_values) what
    seen ← λ (w : World D). (ok (D.probe table u.key_columns types u.key_values w.db), w)
    insert_unseen table types u what seen

  unfoldable pub apply_upsert : Event → Types → Action (World D) Unit
  unfolding prepare_upsert apply_update_preserving
  apply_upsert event types = do
    u ← lift (prepare_upsert event)
    let table = qualified event.schema event.table
    if is_empty event.unchanged_columns
        then exec_with_poison (upsert table u.columns u.key_columns types) u.parameters
            (description "upsert" event)
        else apply_update_preserving table types u (description "upsert" event)

  unfoldable pub apply_delete : Event → Types → Action (World D) Unit
  unfolding exec_with_poison
  apply_delete event types = do
    key ← lift (map_error (permanent_event event.id) (transcode_row event.key))
    exec_with_poison (guarded_delete (qualified event.schema event.table) key.0 types)
        (key.1 ++ lsn event.source.commit_lsn ∷ []) (description "delete" event)

  unfoldable pub apply_operation : Operation → Event → Types → Action (World D) Unit
  unfolding apply_upsert apply_delete
  apply_operation insert_op event types = apply_upsert event types
  apply_operation update_op event types = apply_upsert event types
  apply_operation delete_op event types = apply_delete event types
  apply_operation truncate_op event types = pure tt
  apply_operation (other_op s) event types = pure tt

  unfoldable pub apply_mutation : Event → Action (World D) Unit
  unfolding apply_operation
  apply_mutation event = do
    lift (map_error (permanent_event event.id) (verify_columns event))
    types ← table_columns D event.schema event.table
    apply_operation event.operation event types

  pub apply_row : Event → Action (World D) Bool
  unfolding mark_applied apply_mutation
  apply_row event = do
    applied ← mark_applied event.id event.source.commit_lsn
    if not applied then pure false else do apply_mutation event; pure true

  pub apply_marked : Operation → Event → Action (World D) Bool
  unfolding apply_row
  apply_marked truncate_op event = apply_truncate_in_tx event
  apply_marked _ event = apply_row event

  unfoldable pub apply_in_tx : Event → Action (World D) Bool
  unfolding check_idents apply_marked apply_truncate_in_tx
  apply_in_tx event = do
    lift (validate event)
    lift (check_idents event)
    apply_marked event.operation event

  -- COMMIT, or the rollback of the deferred call: the cache stays as the transaction left it.
  pub concluded : Bool → Result (Unit {0}) → Result Bool
  concluded applied (ok _) = ok applied
  concluded applied (err e) = err (wrapf "commit destination transaction: %w" [] e)

  pub finish : D.Db → Result Bool × World D → Result Bool × World D
  unfolding concluded
  finish before (err e, w) = (err e, record w { db = before })
  finish before (ok applied, w) =
      let (done, db) = D.commit_tx before w.db in (concluded applied done, record w { db = db })

  pub begun : Event → Result (Unit {0}) → Action (World D) Bool
  unfolding finish apply_in_tx
  begun event (err e) w = (err (wrapf "begin destination transaction: %w" [] e), w)
  begun event (ok _) w = finish w.db (apply_in_tx event w)

  -- One event in its own destination transaction.
  unfoldable pub apply : Event → Action (World D) Bool
  unfolding begun
  apply event w = (do lift (validate event); begun event (D.begin_tx w.db)) w
