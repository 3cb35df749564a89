-- ===== src/Destination/Apply/Once.antt =====
-- `Apply` (internal/destination/applier.go) on an event that is delivered again.
use pg_live_sync.Prelude.{◌≡◌, String, inl, inr, refl, ap, ◌∙◌, Bool, true, false}
use pg_live_sync.Errclass.{Result, ok, err, ok-injective}
use pg_live_sync.Action.{continue}
use pg_live_sync.Action.Keeps.{Keeps}
use pg_live_sync.Cdc.{Event, validate}
use pg_live_sync.Destination.Database.{Database}
use pg_live_sync.Destination.Database.Laws.{Laws}
use pg_live_sync.Destination.Columns.{World}
use pg_live_sync.Destination.Apply.{apply_in_tx, concluded, finish, begun, apply}
use pg_live_sync.Destination.Upserts.{LsnParser}
use pg_live_sync.Destination.Apply.Markers.{IsMarked}
use pg_live_sync.Destination.Apply.Replays.{in_tx-Ensures, in_tx-IsMarked, in_tx-Skips}

module _ {D : Database} (laws : Laws D) (parse_lsn : LsnParser) where
  concluded-ok :
      (applied : Bool) (done : Result (Unit {0})) {a : Bool}
      → concluded D parse_lsn applied done ≡ ok a
      → (applied ≡ a) × (done ≡ ok tt)
  unfolding concluded
  concluded-ok applied (ok tt) h = (ok-injective h, refl)
  concluded-ok applied (err e) h = cc

  finish-ok :
      (before : D.Db) (r : Result Bool) (w : World D) {a : Bool}
      → (finish D parse_lsn before (r, w)).0 ≡ ok a
      → (r ≡ ok a) × ((finish D parse_lsn before (r, w)).1 ≡ w)
  unfolding finish
  finish-ok before (err e) w h = cc
  finish-ok before (ok applied) w h =
      let (same, done) = concluded-ok applied (D.commit_tx before w.db).0 h in
      (ap (λ b. ok b) same, ap (λ db. record w { db = db }) (laws.commits before w.db done))

  begun-ok :
      (event : Event) (started : Result (Unit {0})) (w : World D) {a : Bool}
      → (begun D parse_lsn event started w).0 ≡ ok a
      → let run = apply_in_tx D parse_lsn event w in
        (run.0 ≡ ok a) × ((begun D parse_lsn event started w).1 ≡ run.1)
  unfolding begun
  begun-ok event (err e) w h = cc
  begun-ok event (ok _) w h =
      finish-ok w.db (apply_in_tx D parse_lsn event w).0 (apply_in_tx D parse_lsn event w).1 h

  valid-ok :
      (r : Result (Unit {0})) (event : Event) (w : World D) {a : Bool}
      → let m = begun D parse_lsn event (D.begin_tx w.db) in
        let run = apply_in_tx D parse_lsn event w in
        (continue r (λ _. m) w).0 ≡ ok a → (run.0 ≡ ok a) × ((continue r (λ _. m) w).1 ≡ run.1)
  valid-ok (ok _) event w h = begun-ok event (D.begin_tx w.db) w h
  valid-ok (err e) event w h = cc

  -- If `Apply` gives no error, it did what `ApplyInTx` does.
  apply-ok :
      (event : Event) (w : World D) {a : Bool}
      → (apply D parse_lsn event w).0 ≡ ok a
      → let run = apply_in_tx D parse_lsn event w in
        (run.0 ≡ ok a) × ((apply D parse_lsn event w).1 ≡ run.1)
  unfolding apply
  apply-ok event w h = valid-ok (validate event) event w h

  -- An event that `Apply` has taken without an error is marked.
  pub apply-IsMarked :
      (event : Event) (w : World D) {a : Bool}
      → (apply D parse_lsn event w).0 ≡ ok a
      → IsMarked D event.id (apply D parse_lsn event w).1
  apply-IsMarked event w h =
      let (taken, same) = apply-ok event w h in
      rw same ((in_tx-Ensures laws parse_lsn event).after w taken)

  -- Delivered again, an event that is marked is reported as a duplicate, and neither the database
  -- nor the applier changes; this unless `Apply` fails the second time.
  pub apply_duplicate :
      (event : Event) (w : World D) {a : Bool}
      → IsMarked D event.id w
      → (apply D parse_lsn event w).0 ≡ ok a
      → (a ≡ false) × ((apply D parse_lsn event w).1 ≡ w)
  apply_duplicate event w h again =
      let (taken, same) = apply-ok event w again in
      let (stale, kept) = (in_tx-Skips laws parse_lsn event).skips w h taken in (stale, same ∙ kept)

  -- An event takes effect at most once: after a call of `Apply` that gave no error, a second one
  -- that gives no error answers that nothing was applied, and leaves everything as it is.
  pub apply_twice :
      (event : Event) (w : World D) {a b : Bool}
      → (apply D parse_lsn event w).0 ≡ ok a
      → (apply D parse_lsn event (apply D parse_lsn event w).1).0 ≡ ok b
      → (b ≡ false)
        × ((apply D parse_lsn event (apply D parse_lsn event w).1).1
            ≡ (apply D parse_lsn event w).1)
  apply_twice event w h again =
      apply_duplicate event (apply D parse_lsn event w).1 (apply-IsMarked event w h) again

  committed-IsMarked :
      (id : String) (before : D.Db) (w : World D) (done : Result (Unit {0}))
      → (D.commit_tx before w.db).0 ≡ done
      → D.is_marked before id ≡ true
      → IsMarked D id w
      → D.is_marked (D.commit_tx before w.db).1 id ≡ true
  committed-IsMarked id before w (ok _) at h k = rw (laws.commits before w.db at) k
  committed-IsMarked id before w (err e) at h k = elim (laws.aborts before w.db at) [
    | inl none_of_it ↦ rw none_of_it h
    | inr all_of_it ↦ rw all_of_it k
  ]

  -- A mark that is there before and at the end of a transaction is there whatever becomes of it.
  finish-IsMarked :
      (id : String) (before : D.Db) (r : Result Bool) (w : World D)
      → D.is_marked before id ≡ true
      → IsMarked D id w
      → IsMarked D id (finish D parse_lsn before (r, w)).1
  unfolding finish
  finish-IsMarked id before (err x) w h k = h
  finish-IsMarked id before (ok applied) w h k =
      committed-IsMarked id before w (D.commit_tx before w.db).0 refl h k

  begun-IsMarked :
      (id : String) (event : Event) (started : Result (Unit {0})) (w : World D)
      → IsMarked D id w
      → IsMarked D id (begun D parse_lsn event started w).1
  unfolding begun
  begun-IsMarked id event (err x) w h = h
  begun-IsMarked id event (ok _) w h =
      finish-IsMarked id w.db (apply_in_tx D parse_lsn event w).0
        (apply_in_tx D parse_lsn event w).1 h ((in_tx-IsMarked laws parse_lsn id event).after w h)

  valid-IsMarked :
      (id : String) (r : Result (Unit {0})) (event : Event) (w : World D)
      → IsMarked D id w
      → IsMarked D id (continue r (λ _. begun D parse_lsn event (D.begin_tx w.db)) w).1
  valid-IsMarked id (ok _) event w h = begun-IsMarked id event (D.begin_tx w.db) w h
  valid-IsMarked id (err x) event w h = h

  -- `Apply` keeps the markers of all events, whether it fails or not.
  pub apply-Keeps : (id : String) (event : Event) → Keeps (IsMarked D id) (apply D parse_lsn event)
  unfolding apply
  apply-Keeps id event = record { after = λ w h. valid-IsMarked id (validate event) event w h }
