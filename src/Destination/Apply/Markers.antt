-- ===== src/Destination/Apply/Markers.antt =====
-- The markers of `Apply` and `ApplyInTx` (internal/destination/applier.go): which steps keep them.
use pg_live_sync.Prelude.{◌≡◌, refl, String, Bool, true, false, Option, none, some, List}
use pg_live_sync.Errclass.{Error, Result, ok, err}
use pg_live_sync.Action.Keeps.{Keeps, keeps_rules}
use pg_live_sync.Action.Ensures.{Ensures}
use pg_live_sync.Cdc.{Event, Operation, insert_op, update_op, delete_op, truncate_op, other_op}
use pg_live_sync.Destination.Sql.{Types}
use pg_live_sync.Destination.Rows.{Param}
use pg_live_sync.Destination.Database.{Database, Statement}
use pg_live_sync.Destination.Database.Laws.{Laws, leaves_markers}
use pg_live_sync.Destination.Columns.{World, table_columns}
use pg_live_sync.Destination.Columns.Caching.{table_columns-Keeps}
use pg_live_sync.Destination.Apply.{
  executed, exec_with_poison, recorded, mark, table_watermark, truncate_now, truncate_marked,
  apply_truncate_batched, insert_unseen, apply_update_preserving, apply_upsert, apply_delete,
  apply_operation, apply_mutation,
}
use pg_live_sync.Destination.Upserts.{LsnParser, Upsert}

-- The event is marked as applied.
abbrev pub IsMarked : (D : Database) → String → World D → Type 0
IsMarked D id w = D.is_marked w.db id ≡ true

module _ {D : Database} (laws : Laws D) (parse_lsn : LsnParser) where
  module _ (id : String) where
    executed-IsMarked :
        (statement : Statement) (parameters : List Param) (what : String) (answer : Result D.Db)
        (w : World D)
        → leaves_markers statement ≡ true
        → D.execute statement parameters w.db ≡ answer
        → IsMarked D id w
        → IsMarked D id (executed D parse_lsn what answer w).1
    unfolding executed
    executed-IsMarked statement parameters what (ok db) w leaves at h =
        laws.execute_keeps statement parameters id w.db leaves at h
    executed-IsMarked statement parameters what (err e) w leaves at h = h

    pub exec-IsMarked :
        (statement : Statement) (parameters : List Param) (what : String)
        → leaves_markers statement ≡ true
        → Keeps (IsMarked D id) (exec_with_poison D parse_lsn statement parameters what)
    unfolding exec_with_poison
    exec-IsMarked statement parameters what leaves = record {
      after = λ w h. executed-IsMarked statement parameters what _ w leaves refl h;
    }

    recorded-IsMarked :
        (wrap : Error → Error) (other commit_lsn : String) (answer : Result (Bool × D.Db))
        (w : World D)
        → D.mark other commit_lsn w.db ≡ answer
        → IsMarked D id w
        → IsMarked D id (recorded D parse_lsn wrap answer w).1
    unfolding recorded
    recorded-IsMarked wrap other commit_lsn (ok (fresh, db)) w at h =
        laws.mark_keeps other commit_lsn id w.db at h
    recorded-IsMarked wrap other commit_lsn (err e) w at h = h

    pub mark-IsMarked :
        (wrap : Error → Error) (other commit_lsn : String)
        → Keeps (IsMarked D id) (mark D parse_lsn wrap other commit_lsn)
    unfolding mark
    mark-IsMarked wrap other commit_lsn = record {
      after = λ w h. recorded-IsMarked wrap other commit_lsn _ w refl h;
    }

    pub columns-IsMarked :
        (schema table : String) → Keeps (IsMarked D id) (table_columns D schema table)
    columns-IsMarked = table_columns-Keeps (λ db. D.is_marked db id ≡ true)

    pub truncate_now-IsMarked :
        (event : Event) (table : String)
        → Keeps (IsMarked D id) (truncate_now D parse_lsn event table)
    unfolding truncate_now
    truncate_now-IsMarked event table = search (keeps_rules, exec-IsMarked)

    watermark-IsMarked :
        (table : String) → Keeps (IsMarked D id) (table_watermark D parse_lsn table)
    unfolding table_watermark
    watermark-IsMarked table = record { after = λ w h. h }

    ruleset rules = (
      keeps_rules, exec-IsMarked, mark-IsMarked, columns-IsMarked, truncate_now-IsMarked,
      watermark-IsMarked,
    )

    pub truncate_marked-IsMarked :
        (event : Event) → Keeps (IsMarked D id) (truncate_marked D parse_lsn event)
    unfolding truncate_marked
    truncate_marked-IsMarked event = search rules

    pub truncate_batched-IsMarked :
        (event : Event) → Keeps (IsMarked D id) (apply_truncate_batched D parse_lsn event)
    unfolding apply_truncate_batched
    truncate_batched-IsMarked event = search rules

    insert_unseen-IsMarked :
        (table : String) (types : Types) (u : Upsert) (what : String)
        (seen : Result (Option (Option String)))
        → Keeps (IsMarked D id) (insert_unseen D parse_lsn table types u what seen)
    unfolding insert_unseen
    insert_unseen-IsMarked table types u what (ok none) = search rules
    insert_unseen-IsMarked table types u what (ok (some guard)) = search rules
    insert_unseen-IsMarked table types u what (err e) = search rules

    probe-IsMarked :
        (table : String) (types : Types) (u : Upsert)
        → Keeps
            (IsMarked D id)
            (λ (w : World D). (ok (D.probe table u.key_columns types u.key_values w.db), w))
    probe-IsMarked table types u = record { after = λ w h. h }

    pub update-IsMarked :
        (table : String) (types : Types) (u : Upsert) (what : String)
        → Keeps (IsMarked D id) (apply_update_preserving D parse_lsn table types u what)
    unfolding apply_update_preserving
    update-IsMarked table types u what = search (rules, insert_unseen-IsMarked, probe-IsMarked)

    upsert-IsMarked :
        (event : Event) (types : Types)
        → Keeps (IsMarked D id) (apply_upsert D parse_lsn event types)
    unfolding apply_upsert
    upsert-IsMarked event types = search (rules, update-IsMarked)

    delete-IsMarked :
        (event : Event) (types : Types)
        → Keeps (IsMarked D id) (apply_delete D parse_lsn event types)
    unfolding apply_delete
    delete-IsMarked event types = search rules

    operation-IsMarked :
        (operation : Operation) (event : Event) (types : Types)
        → Keeps (IsMarked D id) (apply_operation D parse_lsn operation event types)
    unfolding apply_operation
    operation-IsMarked insert_op event types = upsert-IsMarked event types
    operation-IsMarked update_op event types = upsert-IsMarked event types
    operation-IsMarked delete_op event types = delete-IsMarked event types
    operation-IsMarked truncate_op event types = search rules
    operation-IsMarked (other_op s) event types = search rules

    pub mutation-IsMarked :
        (event : Event) → Keeps (IsMarked D id) (apply_mutation D parse_lsn event)
    unfolding apply_mutation
    mutation-IsMarked event = search (rules, operation-IsMarked)

    recorded_first :
        (wrap : Error → Error) (commit_lsn : String) (answer : Result (Bool × D.Db)) (w : World D)
        {fresh : Bool}
        → D.mark id commit_lsn w.db ≡ answer
        → (recorded D parse_lsn wrap answer w).0 ≡ ok fresh
        → IsMarked D id (recorded D parse_lsn wrap answer w).1
    unfolding recorded
    recorded_first wrap commit_lsn (ok (fresh, db)) w at h = laws.mark_marks id commit_lsn w.db at
    recorded_first wrap commit_lsn (err e) w at h = cc

    -- The marker is there once it has been recorded.
    pub mark-Ensures :
        (wrap : Error → Error) (commit_lsn : String)
        → Ensures (IsMarked D id) (mark D parse_lsn wrap id commit_lsn)
    unfolding mark
    mark-Ensures wrap commit_lsn = record {
      after = λ w e. recorded_first wrap commit_lsn _ w refl e;
    }

    recorded_seen :
        (wrap : Error → Error) (commit_lsn : String) (answer : Result (Bool × D.Db)) (w : World D)
        {a : Bool}
        → D.mark id commit_lsn w.db ≡ answer
        → IsMarked D id w
        → (recorded D parse_lsn wrap answer w).0 ≡ ok a
        → recorded D parse_lsn wrap answer w ≡ (ok false, w)
    unfolding recorded
    recorded_seen wrap commit_lsn (err e) w at h run = cc
    recorded_seen wrap commit_lsn (ok (fresh, db)) w at h run =
        let (stale, same) = laws.mark_seen id commit_lsn w.db h at in rw (stale, same) refl

    -- Once it is there, recording it again finds it and changes nothing.
    pub mark_seen :
        (wrap : Error → Error) (commit_lsn : String) (w : World D) {a : Bool}
        → IsMarked D id w
        → (mark D parse_lsn wrap id commit_lsn w).0 ≡ ok a
        → mark D parse_lsn wrap id commit_lsn w ≡ (ok false, w)
    unfolding mark
    mark_seen wrap commit_lsn w h run = recorded_seen wrap commit_lsn _ w refl h run
