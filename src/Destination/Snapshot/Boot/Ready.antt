-- ===== src/Destination/Snapshot/Boot/Ready.antt =====
-- `bootSnapshot` of cmd/destination-writer/main.go: what holds before the writer reads from Kafka.
use pg_live_sync.Prelude.{
  ◌≡◌, refl, ◌⊎◌, inl, inr, String, Bool, true, false, some, [], ◌∷◌, if◌then◌else◌,
}
use pg_live_sync.Errclass.{Result, ok, err}
use pg_live_sync.Action.{pure}
use pg_live_sync.Action.Ends.{Ends, Ends-bind, Ends-check, Ends-if, Ends-lift, Ends-weaken}
use pg_live_sync.Destination.Rows.{text}
use pg_live_sync.Destination.Database.{Database, mark_snapshot_done}
use pg_live_sync.Destination.Database.Laws.{Laws}
use pg_live_sync.Destination.Columns.{World}
use pg_live_sync.Destination.Upserts.{LsnParser}
use pg_live_sync.Destination.DeadLetters.Transactions.{run-Ends}
use pg_live_sync.Destination.Snapshot.{Source, Layout}
use pg_live_sync.Destination.Snapshot.Copying.{run_snapshot}
use pg_live_sync.Destination.Snapshot.Runs.{SnapshotTaken, run_snapshot-Ends}
use pg_live_sync.Destination.Snapshot.Boot.{
  States, SlotView, equal_fold, is_done, completed, slot_found, check_slot, verify_not_corrupt,
  mark_completed, take_snapshot, boot_snapshot,
}

-- The row that `MarkCompleted` writes is read back.
pub record KeepsState (D : Database) (states : States D) : Type 0 where
  pub marked :
      (db : D.Db) {db' : D.Db}
      → D.execute mark_snapshot_done (text (some "snapshot_done") ∷ []) db ≡ ok db'
      → states.snapshot_state db' ≡ ok (some "done")

module _ {D : Database} (source : Source) (layout : Layout D) (states : States D) where
  -- The snapshot was there, or it was taken now, after the wait for the slot, and marked as done.
  abbrev pub Seeded : Result (Unit {0}) → D.Db → D.Db → Type 0
  Seeded waited before after =
      ((is_done D states (states.snapshot_state before) ≡ ok true) × (after ≡ before))
      ⊎ ((is_done D states (states.snapshot_state before) ≡ ok false)
          × (waited ≡ ok tt)
          × (copied : D.Db) × SnapshotTaken source layout before copied
          × (D.execute mark_snapshot_done (text (some "snapshot_done") ∷ []) copied ≡ ok after))

module _ {D : Database} (laws : Laws D) (parse_lsn : LsnParser) (source : Source)
    (layout : Layout D) (states : States D) where
  taken-Ends :
      (slot publication : String) (waited : Result (Unit {0})) (w : World D)
      → Ends
          (λ _ w'.
            (waited ≡ ok tt)
            × (copied : D.Db) × SnapshotTaken source layout w.db copied
            × (D.execute mark_snapshot_done (text (some "snapshot_done") ∷ []) copied ≡ ok w'.db))
          (take_snapshot D parse_lsn source layout states slot publication waited)
          w
  unfolding take_snapshot mark_completed
  taken-Ends slot publication waited w = Ends-check waited _ w λ _ slot_there.
      Ends-bind (run_snapshot D parse_lsn source layout slot publication) _ w λ _ ran.
        Ends-weaken _ _ (run-Ends mark_snapshot_done _ _ _) λ _ w' marked. (
          slot_there,
          _,
          (run_snapshot-Ends laws parse_lsn source layout slot publication w).after ran,
          marked,
        )

  -- The first half of `bootSnapshot`, for what `Completed` answered.
  Seeded-Ends :
      (slot publication : String) (waited : Result (Unit {0})) (done : Bool) (w : World D)
      → is_done D states (states.snapshot_state w.db) ≡ ok done
      → Ends
          (λ _ w'. Seeded source layout states waited w.db w'.db)
          (if done
            then pure tt
            else take_snapshot D parse_lsn source layout states slot publication waited)
          w
  Seeded-Ends slot publication waited true w at = Ends-lift (ok tt) w λ _ _. inl (at, refl)
  Seeded-Ends slot publication waited false w at =
      Ends-weaken _ w (taken-Ends slot publication waited w)
        λ _ w' taken. inr (at, taken.0, taken.1, taken.2, taken.3)

  module _ (keeps : KeepsState D states) where
    done_after :
        (waited : Result (Unit {0})) (before after : D.Db)
        → Seeded source layout states waited before after
        → is_done D states (states.snapshot_state after) ≡ ok true
    unfolding is_done equal_fold
    done_after waited before after (inl (at, same)) = rw same at
    done_after waited before after (inr (_, _, copied, _, marked)) =
        rw (keeps.marked copied marked) refl

    found : (slot : String) (r : Result Bool) → slot_found D states slot r ≡ ok tt → r ≡ ok true
    unfolding slot_found
    found slot (err e) h = cc
    found slot (ok true) h = refl
    found slot (ok false) h = cc

    checked :
        (slot : String) (view : SlotView) (r : Result (Unit {0}))
        → check_slot D states slot view r ≡ ok tt
        → view.slot_exists ≡ ok true
    unfolding check_slot
    checked slot view (err e) h = cc
    checked slot view (ok _) h = found slot view.slot_exists h

    unlike : (done : Bool) {r : Result Bool} → r ≡ ok done → r ≡ ok true → done ≡ false → ⊥
    unlike done at there no_snapshot = cc

    verified-Ends :
        (slot : String) (view : SlotView) (before : D.Db) (waited : Result (Unit {0})) (w : World D)
        → Seeded source layout states waited before w.db
        → Ends
            (λ _ w'. (view.slot_exists ≡ ok true) × Seeded source layout states waited before w'.db)
            (verify_not_corrupt D states slot view)
            w
    unfolding verify_not_corrupt completed
    verified-Ends slot view before waited w seeded = Ends-bind (completed D states) _ w λ done at.
        Ends-if done _ _ w
          (λ _.
            Ends-lift (check_slot D states slot view view.connect) w
              λ _ h. (checked slot view view.connect h, seeded))
          (λ no_snapshot.
            absurd (unlike done at (done_after waited before w.db seeded) no_snapshot))

    booted-Ends :
        (slot publication : String) (waited : Result (Unit {0})) (view : SlotView) (w : World D)
        → Ends
            (λ _ w'. (view.slot_exists ≡ ok true) × Seeded source layout states waited w.db w'.db)
            (boot_snapshot D parse_lsn source layout states slot publication waited view)
            w
    unfolding boot_snapshot completed
    booted-Ends slot publication waited view w = Ends-bind (completed D states) _ w λ done at.
        Ends-bind
          (if done
            then pure tt
            else take_snapshot D parse_lsn source layout states slot publication waited)
          _ w
          λ _ ran.
            verified-Ends slot view w.db waited _
              ((Seeded-Ends slot publication waited done w at).after ran)

    -- If `bootSnapshot` gives no error, the replication slot exists, and either the snapshot was
    -- done before and nothing is changed, or the slot was waited for, the whole snapshot is
    -- written and it is marked as done.
    pub boot_snapshot-Seeded :
        (slot publication : String) (waited : Result (Unit {0})) (view : SlotView) (w : World D)
        → (boot_snapshot D parse_lsn source layout states slot publication waited view w).0 ≡ ok tt
        → (view.slot_exists ≡ ok true)
          × Seeded source layout states waited w.db
              (boot_snapshot D parse_lsn source layout states slot publication waited view w).1.db
    boot_snapshot-Seeded slot publication waited view w h =
        (booted-Ends slot publication waited view w).after h
