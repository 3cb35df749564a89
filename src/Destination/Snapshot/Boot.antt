-- ===== src/Destination/Snapshot/Boot.antt =====
-- The other operations of the Snapshotter (internal/destination/snapshot.go), and `bootSnapshot` of
-- cmd/destination-writer/main.go. Times are milliseconds.
pub mod Waiting
pub mod Ready
use Prim.Native.Char.{code}
use pg_live_sync.Prelude.{
  ℕ, zero, suc, ◌+◌, ◌-◌, ◌*◌, ◌/◌, ◌==◌, leb, ltb, String, Bool, true, false, ◌&&◌, Option, none,
  some, List, [], ◌∷◌, itoa, if◌then◌else◌,
}
use pg_live_sync.Errclass.{Error, errorf, wrapf, Result, ok, err}
use pg_live_sync.Action.{Action, pure, fail, lift, map_error, ◌>>=◌, ◌>>◌}
use pg_live_sync.Destination.Rows.{text}
use pg_live_sync.Destination.Database.{Database, mark_snapshot_done}
use pg_live_sync.Destination.Columns.{World}
use pg_live_sync.Destination.Upserts.{LsnParser}
use pg_live_sync.Destination.DeadLetters.{run}
use pg_live_sync.Destination.Snapshot.{Source, Layout}
use pg_live_sync.Destination.Snapshot.Copying.{run_snapshot}

-- An ASCII letter in lower case. No other character folds to a letter of "done".
fold : ℕ → ℕ
fold c = if leb 65 c && leb c 90 then c + 32 else c

-- strings.EqualFold
unfoldable pub equal_fold : String → String → Bool
unfolding fold
equal_fold String.[] String.[] = true
equal_fold String.[] (String.◌∷◌ d t) = false
equal_fold (String.◌∷◌ c s) String.[] = false
equal_fold (String.◌∷◌ c s) (String.◌∷◌ d t) = fold (code c) == fold (code d) && equal_fold s t

-- What is asked of the source outside of the copy.
pub record SlotView : Type 0 where
  pub connect : Result (Unit {0})
  -- SELECT EXISTS (... pg_replication_slots ...)
  pub slot_exists : Result Bool

-- One round of `WaitForSlot`: the time at its test, the query's answer (`none` is ErrNoRows), and
-- the context's error if it ends during the two seconds that follow.
pub record Poll : Type 0 where
  pub at : ℕ
  pub answer : Result (Option String)
  pub cancelled : Option Error

abbrev pub poll_interval : ℕ
poll_interval = 2 * 1000

-- snapshotSlotWait
abbrev pub snapshot_slot_wait : ℕ
snapshot_slot_wait = 60 * 1000

-- The two seconds after a round without a slot.
pub after_wait : Option Error → Option (Result (Unit {0})) → Option (Result (Unit {0}))
after_wait none rest = rest
after_wait (some e) rest = some (err e)

pub after_answer :
    String
    → Result (Option String)
    → Option Error
    → Option (Result (Unit {0}))
    → Option (Result (Unit {0}))
unfolding after_wait
after_answer slot (ok (some restart_lsn)) cancelled rest = some (ok tt)
after_answer slot (ok none) cancelled rest = after_wait cancelled rest
after_answer slot (err e) cancelled rest =
    some (err (wrapf "wait for replication slot %q: %w" (slot ∷ []) e))

-- The loop from round `i` on, by fuel; `none` means that the fuel ran out.
unfoldable pub poll_from : String → ℕ → ℕ → (ℕ → Poll) → ℕ → ℕ → Option (Result (Unit {0}))
unfolding after_answer
poll_from slot timeout deadline polls i zero = none
poll_from slot timeout deadline polls i (suc fuel) =
    let rest = poll_from slot timeout deadline polls (suc i) fuel in
    if ltb (polls i).at deadline
    then after_answer slot (polls i).answer (polls i).cancelled rest
    else some
        (err (errorf "replication slot %q was not created within %s" (slot ∷ itoa timeout ∷ [])))

-- Two rounds more than fit into the time.
abbrev pub poll_fuel : ℕ → ℕ
poll_fuel timeout = suc (suc (timeout / poll_interval))

-- `WaitForSlot`, which starts at the time `start`.
unfoldable pub wait_for_slot :
    String → ℕ → ℕ → Result (Unit {0}) → (ℕ → Poll) → Option (Result (Unit {0}))
unfolding poll_from
wait_for_slot slot timeout start (err e) polls =
    some (err (wrapf "connect to source while waiting for replication slot: %w" [] e))
wait_for_slot slot timeout start (ok _) polls =
    poll_from slot timeout (start + timeout) polls 0 (poll_fuel timeout)

-- The row of cdc_state under "snapshot_done", as it is read; `none` is ErrNoRows.
pub record States (D : Database) : Type 0 where
  pub snapshot_state : D.Db → Result (Option String)

module _ (D : Database) (states : States D) where
  pub is_done : Result (Option String) → Result Bool
  is_done (ok none) = ok false
  is_done (ok (some value)) = ok (equal_fold value "done")
  is_done (err e) = err (wrapf "read snapshot state: %w" [] e)

  -- `Completed`
  unfoldable pub completed : Action (World D) Bool
  unfolding is_done
  completed w = (is_done (states.snapshot_state w.db), w)

  pub slot_found : String → Result Bool → Result (Unit {0})
  slot_found slot (err e) = err (wrapf "check replication slot %q: %w" (slot ∷ []) e)
  slot_found slot (ok true) = ok tt
  slot_found slot (ok false) = err (
      errorf
        "corrupted state: snapshot is marked done but replication slot %q is missing on the source; restore the slot or reset the pipeline"
        (slot ∷ []))

  pub check_slot : String → SlotView → Result (Unit {0}) → Result (Unit {0})
  unfolding slot_found
  check_slot slot view (err e) = err (wrapf "connect to source for corruption check: %w" [] e)
  check_slot slot view (ok _) = slot_found slot view.slot_exists

  -- `VerifyNotCorrupt`
  unfoldable pub verify_not_corrupt : String → SlotView → Action (World D) Unit
  unfolding completed check_slot
  verify_not_corrupt slot view = do
    done ← completed
    if done then lift (check_slot slot view view.connect) else pure tt

  -- `MarkCompleted`
  unfoldable pub mark_completed : Action (World D) Unit
  mark_completed =
      run D mark_snapshot_done (text (some "snapshot_done") ∷ [])
        (wrapf "mark snapshot complete: %w" [])

-- `bootSnapshot`, with the outcome of its wait for the slot.
module _ (D : Database) (parse_lsn : LsnParser) (source : Source) (layout : Layout D)
    (states : States D) where
  pub take_snapshot : String → String → Result (Unit {0}) → Action (World D) Unit
  unfolding mark_completed
  take_snapshot slot publication waited = do
    lift waited
    run_snapshot D parse_lsn source layout slot publication
    mark_completed D states

  unfoldable pub boot_snapshot :
      String → String → Result (Unit {0}) → SlotView → Action (World D) Unit
  unfolding take_snapshot
  boot_snapshot slot publication waited view = do
    done ← completed D states
    if done then pure tt else take_snapshot slot publication waited
    verify_not_corrupt D states slot view
