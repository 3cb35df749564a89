-- ===== src/Destination/DeadLetters/Markers.antt =====
-- `RecordDeadLetter` (internal/destination/applier.go) marks the event.
use pg_live_sync.Prelude.{◌≡◌, inl, inr, refl, String, true, List, []}
use pg_live_sync.Errclass.{Error, Result, ok, err, wrapf}
use pg_live_sync.Action.{Action, map_error}
use pg_live_sync.Action.Keeps.{Keeps, Keeps-bind}
use pg_live_sync.Action.Ensures.{Ensures, Ensures-first}
use pg_live_sync.Cdc.{Event}
use pg_live_sync.Destination.Rows.{Param}
use pg_live_sync.Destination.Database.{Database, Statement, insert_dead_letter}
use pg_live_sync.Destination.Database.Laws.{Laws, leaves_markers}
use pg_live_sync.Destination.Columns.{World}
use pg_live_sync.Destination.Apply.{mark_applied}
use pg_live_sync.Destination.Upserts.{LsnParser}
use pg_live_sync.Destination.Apply.Markers.{IsMarked, mark-IsMarked, mark-Ensures}
use pg_live_sync.Destination.DeadLetters.{
  ran, run, close_tx, started, in_tx, quarantine_writes, record_dead_letter,
}

module _ {D : Database} (laws : Laws D) (parse_lsn : LsnParser) (id : String) where
  ran-IsMarked :
      (statement : Statement) (parameters : List Param) (wrap : Error → Error)
      (answer : Result D.Db) (w : World D)
      → leaves_markers statement ≡ true
      → D.execute statement parameters w.db ≡ answer
      → IsMarked D id w
      → IsMarked D id (ran D wrap answer w).1
  unfolding ran
  ran-IsMarked statement parameters wrap (ok db) w leaves at h =
      laws.execute_keeps statement parameters id w.db leaves at h
  ran-IsMarked statement parameters wrap (err e) w leaves at h = h

  pub run-IsMarked :
      (statement : Statement) (parameters : List Param) (wrap : Error → Error)
      → leaves_markers statement ≡ true
      → Keeps (IsMarked D id) (run D statement parameters wrap)
  unfolding run
  run-IsMarked statement parameters wrap leaves = record {
    after = λ w h. ran-IsMarked statement parameters wrap _ w leaves refl h;
  }

  writes-IsMarked :
      (event : Event) (why : Error)
      → Keeps (IsMarked D id) (quarantine_writes D parse_lsn event why)
  unfolding quarantine_writes mark_applied
  writes-IsMarked event why =
      Keeps-bind (mark_applied D parse_lsn event.id event.source.commit_lsn) _
        (mark-IsMarked laws parse_lsn id _ event.id event.source.commit_lsn)
        (λ fresh. run-IsMarked insert_dead_letter _ _ refl)

  committed-IsMarked :
      (text : String) (args : List String) (before : D.Db) (w : World D) (done : Result (Unit {0}))
      → (D.commit_tx before w.db).0 ≡ done
      → D.is_marked before id ≡ true
      → IsMarked D id w
      → D.is_marked (D.commit_tx before w.db).1 id ≡ true
  committed-IsMarked text args before w (ok tt) at h k = rw (laws.commits before w.db at) k
  committed-IsMarked text args before w (err e) at h k = elim (laws.aborts before w.db at) [
    | inl none_of_it ↦ rw none_of_it h
    | inr all_of_it ↦ rw all_of_it k
  ]

  close-IsMarked :
      (text : String) (args : List String) (before : D.Db) (r : Result (Unit {0})) (w : World D)
      → D.is_marked before id ≡ true
      → IsMarked D id w
      → IsMarked D id (close_tx D text args before (r, w)).1
  unfolding close_tx
  close-IsMarked text args before (err e) w h k = h
  close-IsMarked text args before (ok _) w h k = committed-IsMarked text args before w _ refl h k

  started-IsMarked :
      (begin_text text : String) (args : List String) (m : Action (World D) Unit)
      (r : Result (Unit {0})) (w : World D)
      → Keeps (IsMarked D id) m
      → IsMarked D id w
      → IsMarked D id (started D begin_text text args m r w).1
  unfolding started
  started-IsMarked begin_text text args m (err e) w k h = h
  started-IsMarked begin_text text args m (ok _) w k h =
      close-IsMarked text args w.db (m w).0 (m w).1 h (k.after w h)

  pub record-IsMarked :
      (event : Event) (why : Error)
      → Keeps (IsMarked D id) (record_dead_letter D parse_lsn event why)
  unfolding record_dead_letter in_tx
  record-IsMarked event why = record {
    after = λ w h.
        started-IsMarked _ _ [] (quarantine_writes D parse_lsn event why) (D.begin_tx w.db) w
          (writes-IsMarked event why) h;
  }

module _ {D : Database} (laws : Laws D) (parse_lsn : LsnParser) where
  writes-Ensures :
      (event : Event) (why : Error)
      → Ensures (IsMarked D event.id) (quarantine_writes D parse_lsn event why)
  unfolding quarantine_writes mark_applied
  writes-Ensures event why =
      Ensures-first (mark_applied D parse_lsn event.id event.source.commit_lsn) _
        (mark-Ensures laws parse_lsn event.id _ event.source.commit_lsn)
        (λ fresh. run-IsMarked laws parse_lsn event.id insert_dead_letter _ _ refl)

  committed-ok :
      (text : String) (args : List String) (before after : D.Db) (done : Result (Unit {0}))
      → (D.commit_tx before after).0 ≡ done
      → map_error (wrapf text args) done ≡ ok tt
      → (D.commit_tx before after).1 ≡ after
  committed-ok text args before after (ok tt) at h = laws.commits before after at
  committed-ok text args before after (err e) at h = cc

  close-Ensures :
      (id text : String) (args : List String) (before : D.Db) (r : Result (Unit {0})) (w : World D)
      → (r ≡ ok tt → IsMarked D id w)
      → (close_tx D text args before (r, w)).0 ≡ ok tt
      → IsMarked D id (close_tx D text args before (r, w)).1
  unfolding close_tx
  close-Ensures id text args before (err e) w k h = cc
  close-Ensures id text args before (ok tt) w k h =
      rw (committed-ok text args before w.db (D.commit_tx before w.db).0 refl h) (k refl)

  started-Ensures :
      (id begin_text text : String) (args : List String) (m : Action (World D) Unit)
      (r : Result (Unit {0})) (w : World D)
      → Ensures (IsMarked D id) m
      → (started D begin_text text args m r w).0 ≡ ok tt
      → IsMarked D id (started D begin_text text args m r w).1
  unfolding started
  started-Ensures id begin_text text args m (err e) w k h = cc
  started-Ensures id begin_text text args m (ok _) w k h =
      close-Ensures id text args w.db (m w).0 (m w).1 (λ at. k.after w at) h

  pub record-Ensures :
      (event : Event) (why : Error)
      → Ensures (IsMarked D event.id) (record_dead_letter D parse_lsn event why)
  unfolding record_dead_letter in_tx
  record-Ensures event why = record {
    after = λ w e.
        started-Ensures event.id _ _ [] (quarantine_writes D parse_lsn event why) (D.begin_tx w.db)
          w (writes-Ensures event why) e;
  }
