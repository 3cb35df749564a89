-- ===== src/Destination/Batch/InOrder/Delays.antt =====
-- A queued mutation can wait behind the lookup of a later event's columns.
use pg_live_sync.Prelude.{◌≡◌, refl, sym, ap, ◌∙◌, String, List, [], ◌∷◌, ◌++◌, All}
use mathlib.Core.Path.{subst}
use pg_live_sync.Errclass.{Result, ok, err, batch_error}
use pg_live_sync.Action.{pure, map_error}
use pg_live_sync.Action.Runs.{Runs, Runs-split, Runs-join, map_error-Runs}
use pg_live_sync.Destination.Sql.{Types}
use pg_live_sync.Destination.Rows.{Param}
use pg_live_sync.Destination.Database.{Database, Statement, upsert, guarded_delete}
use pg_live_sync.Destination.Columns.{World, table_columns}
use pg_live_sync.Destination.Columns.Reading.{table_columns-with_db}
use pg_live_sync.Destination.Apply.{executed, exec_with_poison}
use pg_live_sync.Destination.Upserts.{LsnParser, description}
use pg_live_sync.Destination.Batch.{Queued, run_one, run_queue}

-- An upsert or a guarded DELETE.
abbrev pub IsRowChange : Statement → Type 0
IsRowChange (upsert table columns keys types) = Unit {0}
IsRowChange (guarded_delete table keys types) = Unit {0}
IsRowChange _ = ⊥

-- INSERT and DELETE do not change which columns a table has.
pub record KeepsCatalog (D : Database) : Type 0 where
  pub kept :
      (statement : Statement) (parameters : List Param) (db : D.Db) {db' : D.Db} (name : String)
      → IsRowChange statement
      → D.execute statement parameters db ≡ ok db'
      → D.catalog name db' ≡ D.catalog name db

module _ (D : Database) (parse_lsn : LsnParser) where
  ran_in :
      (what : String) (answer : Result D.Db) (w : World D) {v : World D}
      → executed D parse_lsn what answer w ≡ (ok tt, v)
      → (db : D.Db) × (answer ≡ ok db) × (v ≡ record w { db = db })
  unfolding executed
  ran_in what (ok db) w h = (db, refl, sym (ap (λ (p : Result (Unit {0}) × World D). p.1) h))
  ran_in what (err e) w h = cc (ap (λ (p : Result (Unit {0}) × World D). p.0) h)

  one_in :
      (q : Queued) (w : World D) {v : World D}
      → Runs (run_one D parse_lsn q) w tt v
      → (db : D.Db) × (D.execute q.statement q.parameters w.db ≡ ok db) × (v ≡ record w { db = db })
  unfolding run_one exec_with_poison
  one_in q w h = ran_in _ (D.execute q.statement q.parameters w.db) w (
      map_error-Runs _
        (exec_with_poison D parse_lsn q.statement q.parameters (description "mutation for" q.event))
        w h)

  -- The text of an error does not matter to a mutation that succeeds.
  pub run_one-exec :
      (q : Queued) (what : String) (w : World D) {v : World D}
      → Runs (run_one D parse_lsn q) w tt v
      → Runs (exec_with_poison D parse_lsn q.statement q.parameters what) w tt v
  unfolding exec_with_poison executed
  run_one-exec q what w h =
      let (db, executes, same) = one_in q w h in
      ap (λ answer. executed D parse_lsn what answer w) executes
      ∙ ap (λ (v : World D). (ok tt, v)) (sym same)

  one_again :
      (q : Queued) (w : World D) {db : D.Db}
      → D.execute q.statement q.parameters w.db ≡ ok db
      → Runs (run_one D parse_lsn q) w tt (record w { db = db })
  unfolding run_one exec_with_poison executed
  one_again q w h =
      ap
        (λ answer. (
          map_error (batch_error q.index)
              (executed D parse_lsn (description "mutation for" q.event) answer w).0,
          (executed D parse_lsn (description "mutation for" q.event) answer w).1,
        ))
        h

  -- What a run of the queue does: only the database changes, and not its catalog.
  pub record Delayed (queued : List Queued) (w v : World D) : Type 0 where
    pub only_db : v ≡ record w { db = v.db }
    pub catalog : (name : String) → D.catalog name v.db ≡ D.catalog name w.db
    pub again :
        (w' : World D)
        → w'.db ≡ w.db
        → Runs (run_queue D parse_lsn queued) w' tt (record w' { db = v.db })

  pub queue-Delayed :
      KeepsCatalog D
      → (queued : List Queued) (w : World D) {v : World D}
      → All (λ (q : Queued). IsRowChange q.statement) queued
      → Runs (run_queue D parse_lsn queued) w tt v
      → Delayed queued w v
  unfolding run_queue
  queue-Delayed keeps [] w {v} h k =
      let same : w ≡ v = ap (λ (p : Result (Unit {0}) × World D). p.1) k in
      subst (Delayed [] w) same (record {
        only_db = refl;
        catalog = λ name. refl;
        again = λ w' at. λ i. (ok tt, record w' { db = at i });
      })
  queue-Delayed keeps (q ∷ queued) w {v} (now, later) k =
      let (_, middle, first, rest) =
        Runs-split (run_one D parse_lsn q) (λ _. run_queue D parse_lsn queued) w k in
      let (db, executes, same) = one_in q w first in
      let delayed = queue-Delayed keeps queued middle later rest in
      record {
        only_db = delayed.only_db ∙ ap (λ (m : World D). record m { db = v.db }) same;
        catalog = λ name.
            delayed.catalog name
            ∙ ap (λ (m : World D). D.catalog name m.db) same
            ∙ keeps.kept q.statement q.parameters w.db name now executes;
        again = λ w' at.
            Runs-join (run_one D parse_lsn q) (λ _. run_queue D parse_lsn queued)
              (one_again q w' (ap (D.execute q.statement q.parameters) at ∙ executes))
              (delayed.again (record w' { db = db }) (sym (ap (λ (m : World D). m.db) same)));
      }

  -- A lookup that stands before the run of a queue can stand behind it.
  pub lookup_delayed :
      KeepsCatalog D
      → (queued : List Queued) (schema table : String) (w w' v' : World D) {types : Types}
      → All (λ (q : Queued). IsRowChange q.statement) queued
      → Runs (table_columns D schema table) w types w'
      → Runs (run_queue D parse_lsn queued) w' tt v'
      → (v : World D) × Runs (run_queue D parse_lsn queued) w tt v
        × Runs (table_columns D schema table) v types v'
  lookup_delayed keeps queued schema table w w' v' {types} changes found ran =
      let delayed = queue-Delayed keeps queued w' changes ran in
      let kept = (table_columns-with_db D schema table w w.db (λ name. refl) found).0 in
      let catalog : (name : String) → D.catalog name v'.db ≡ D.catalog name w.db =
        λ name. delayed.catalog name ∙ ap (D.catalog name) kept in
      let later = (table_columns-with_db D schema table w v'.db catalog found).1 in
      (
        record w { db = v'.db },
        delayed.again w (sym kept),
        subst
            (λ (v : World D). Runs (table_columns D schema table) (record w { db = v'.db }) types v)
            (sym delayed.only_db) later,
      )

  -- The last of a queue is run by itself.
  pub run_queue-++ :
      (queued : List Queued) (q : Queued) (w v : World D)
      → Runs (run_queue D parse_lsn (queued ++ q ∷ [])) w tt v
      → (middle : World D) × Runs (run_queue D parse_lsn queued) w tt middle
        × Runs (run_one D parse_lsn q) middle tt v
  unfolding run_queue
  run_queue-++ [] q w v h =
      let (_, middle, first, rest) = Runs-split (run_one D parse_lsn q) (λ _. pure tt) w h in
      (w, refl, first ∙ rest)
  run_queue-++ (first ∷ queued) q w v h =
      let (_, next, ran, rest) =
        Runs-split (run_one D parse_lsn first) (λ _. run_queue D parse_lsn (queued ++ q ∷ [])) w
          h in
      let (middle, before, last) = run_queue-++ queued q next v rest in
      (
        middle,
        Runs-join (run_one D parse_lsn first) (λ _. run_queue D parse_lsn queued) ran before,
        last,
      )
