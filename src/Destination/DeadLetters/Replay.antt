-- ===== src/Destination/DeadLetters/Replay.antt =====
-- `ReplayDeadLetter` of internal/destination/deadletter.go never lets go of its event.
use pg_live_sync.Prelude.{◌≡◌, refl, sym, ◌⊎◌, inl, inr, String, Bool, Option, none, some, [], ◌∷◌}
use mathlib.Core.Path.{subst}
use pg_live_sync.Errclass.{Error, wrapf, shownf, Result, ok, err, ok-injective}
use pg_live_sync.Action.Always.{Always, Always-bind}
use pg_live_sync.Cdc.{Event}
use pg_live_sync.Destination.Rows.{text}
use pg_live_sync.Destination.Database.{Database, StoredLetter, delete_dead_letter, delete_marker}
use pg_live_sync.Destination.Database.Laws.{Laws}
use pg_live_sync.Destination.Columns.{World}
use pg_live_sync.Destination.Apply.{apply}
use pg_live_sync.Destination.Upserts.{LsnParser}
use pg_live_sync.Destination.Apply.Markers.{IsMarked}
use pg_live_sync.Destination.Apply.Once.{apply-IsMarked}
use pg_live_sync.Destination.DeadLetters.Markers.{run-IsMarked, record-Ensures}
use pg_live_sync.Destination.DeadLetters.Transactions.{run_failed}
use pg_live_sync.Destination.DeadLetters.{
  event_of_letter, run, unstashed, record_dead_letter, loaded, get_dead_letter, restash, replayed,
  replay_dead_letter,
}

-- SELECT ... WHERE event_id = $1
pub record FindsLetters (D : Database) : Type 0 where
  pub own :
      (id : String) (db : D.Db) {letter : StoredLetter}
      → D.dead_letter id db ≡ ok (some letter)
      → letter.event_id ≡ id

-- The error that says that the marker could not be put back.
abbrev pub SaysUnstashed : String → Result Bool → Type 0
SaysUnstashed id answer =
    (why : Error) × (answer
      ≡ err (
          shownf "replay %s failed: %v (and re-stashing the quarantine marker failed: %v)" (id ∷ [])
            why))

-- The event is marked, or the error says that it could not be.
module _ {D : Database} where
  abbrev pub StaysKnown : String → Result Bool → World D → Type 0
  StaysKnown id answer w = IsMarked D id w ⊎ SaysUnstashed id answer

module _ {D : Database} (laws : Laws D) (parse_lsn : LsnParser) where
  answered :
      (id : String) (e : Error) (stashed : Result (Unit {0})) (w : World D)
      → (stashed ≡ ok tt → IsMarked D id w)
      → StaysKnown id (err (unstashed D parse_lsn id e stashed)) w
  unfolding unstashed
  answered id e (ok _) w k = inl (k refl)
  answered id e (err f) w k = inr (f, refl)

  restashed :
      (id : String) (event : Event) (e : Error) (w : World D)
      → event.id ≡ id
      → Always (StaysKnown id) (restash D parse_lsn id event e) w
  unfolding restash
  restashed id event e w own =
      let stash = record_dead_letter D parse_lsn event (shownf "replay failed: " [] e) in
      record {
        holds = answered id e (stash w).0 (stash w).1 λ at.
            subst (λ (i : String). IsMarked D i (stash w).1) own
              ((record-Ensures laws parse_lsn event (shownf "replay failed: " [] e)).after w at);
      }

  replayed-StaysKnown :
      (id : String) (event : Event) (outcome : Result Bool) (w : World D)
      → event.id ≡ id
      → ((applied : Bool) → outcome ≡ ok applied → IsMarked D id w)
      → Always (StaysKnown id) (replayed D parse_lsn id event outcome) w
  unfolding replayed
  replayed-StaysKnown id event (err e) w own k = restashed id event e w own
  replayed-StaysKnown id event (ok applied) w own k =
      let dropped =
        (run-IsMarked laws parse_lsn id delete_dead_letter (text (some id) ∷ [])
            (wrapf "drop replayed dead letter %s: %w" (id ∷ [])) refl).after
          w (k applied refl) in
      Always-bind
        (run D delete_dead_letter (text (some id) ∷ [])
          (wrapf "drop replayed dead letter %s: %w" (id ∷ [])))
        _ w (λ e at. inl dropped) (λ _ at. record { holds = inl dropped })

  loaded-own :
      (finds : FindsLetters D) (id : String) (db : D.Db) (found : Result (Option StoredLetter))
      {letter : StoredLetter}
      → D.dead_letter id db ≡ found
      → loaded D parse_lsn id found ≡ ok letter
      → letter.event_id ≡ id
  unfolding loaded
  loaded-own finds id db (ok (some letter)) at h =
      subst (λ (l : StoredLetter). l.event_id ≡ id) (ok-injective h) (finds.own id db at)
  loaded-own finds id db (ok none) at h = cc
  loaded-own finds id db (err e) at h = cc

  applied-IsMarked :
      (id : String) (event : Event) (w : World D)
      → event.id ≡ id
      → (applied : Bool) → (apply D parse_lsn event w).0 ≡ ok applied
      → IsMarked D id (apply D parse_lsn event w).1
  applied-IsMarked id event w own applied at =
      subst (λ (i : String). IsMarked D i (apply D parse_lsn event w).1) own
        (apply-IsMarked laws parse_lsn event w at)

  replay-StaysKnown :
      FindsLetters D
      → (id : String) (w : World D) → IsMarked D id w
      → Always (StaysKnown id) (replay_dead_letter D parse_lsn id) w
  unfolding replay_dead_letter get_dead_letter event_of_letter
  replay-StaysKnown finds id w h =
      Always-bind (get_dead_letter D parse_lsn id) _ w (λ e at. inl h)
        λ letter found.
          let own = loaded-own finds id w.db (D.dead_letter id w.db) refl found in
          let rewind =
            run D delete_marker (text (some id) ∷ [])
              (wrapf "rewind quarantine marker %s: %w" (id ∷ [])) in
          Always-bind rewind _ w
            (λ e at. inl (subst (IsMarked D id) (sym (run_failed delete_marker _ _ w at)) h))
            λ _ rewound. record {
              holds =
                  (replayed-StaysKnown id (event_of_letter letter)
                    (apply D parse_lsn (event_of_letter letter) (rewind w).1).0
                    (apply D parse_lsn (event_of_letter letter) (rewind w).1).1 own
                    (applied-IsMarked id (event_of_letter letter) (rewind w).1 own)).holds;
            }

  -- A quarantined event whose letter `ReplayDeadLetter` is asked to replay is still marked
  -- afterwards, whatever happens: it was applied, or it is quarantined again, unless that fails
  -- too, and then the error says so. This where a statement that fails changes nothing.
  pub replay_dead_letter-StaysKnown :
      FindsLetters D
      → (id : String) (w : World D) → IsMarked D id w
      → StaysKnown id
          (replay_dead_letter D parse_lsn id w).0
          (replay_dead_letter D parse_lsn id w).1
  replay_dead_letter-StaysKnown finds id w h = (replay-StaysKnown finds id w h).holds
