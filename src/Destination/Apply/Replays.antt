-- ===== src/Destination/Apply/Replays.antt =====
-- `ApplyInTx` (internal/destination/applier.go) on an event whose marker is there.
use pg_live_sync.Prelude.{◌≡◌, refl, sym, ap, ◌∙◌, String, Bool, true, false, not, if◌then◌else◌}
use pg_live_sync.Errclass.{Error, Result, ok, err, ok-injective}
use pg_live_sync.Action.{Action, pure, lift, continue, ◌>>=◌, ◌>>◌}
use pg_live_sync.Action.Keeps.{Keeps, Keeps-bind, keeps_rules}
use pg_live_sync.Action.Ensures.{Ensures, Ensures-first, Ensures-later, bind-answer}
use pg_live_sync.Cdc.{
  Event, Operation, validate, insert_op, update_op, delete_op, truncate_op, other_op,
}
use pg_live_sync.Destination.Database.{Database}
use pg_live_sync.Destination.Database.Laws.{Laws}
use pg_live_sync.Destination.Columns.{World}
use pg_live_sync.Destination.Apply.{
  mark, mark_applied, apply_truncate_in_tx, apply_row, apply_marked, apply_in_tx, truncate_marked,
  apply_mutation,
}
use pg_live_sync.Destination.Upserts.{LsnParser, check_idents}
use pg_live_sync.Destination.Apply.Markers.{
  IsMarked, mark-IsMarked, mark-Ensures, mark_seen, truncate_marked-IsMarked, mutation-IsMarked,
}

module _ {D : Database} (laws : Laws D) (parse_lsn : LsnParser) where
  ruleset rules = (keeps_rules, truncate_marked-IsMarked, mutation-IsMarked)

  -- What follows the marker keeps it.
  after_truncate :
      (id : String) (event : Event) (applied : Bool)
      → Keeps (IsMarked D id) (if applied then truncate_marked D parse_lsn event else pure false)
  after_truncate id event applied = search (rules, laws)

  after_row :
      (id : String) (event : Event) (applied : Bool)
      → Keeps
          (IsMarked D id)
          (if not applied then pure false else (do apply_mutation D parse_lsn event; pure true))
  after_row id event applied = search (rules, laws)

  truncate-Ensures :
      (event : Event) → Ensures (IsMarked D event.id) (apply_truncate_in_tx D parse_lsn event)
  unfolding apply_truncate_in_tx mark_applied
  truncate-Ensures event =
      Ensures-first (mark_applied D parse_lsn event.id event.source.commit_lsn) _
        (mark-Ensures laws parse_lsn event.id _ event.source.commit_lsn)
        (after_truncate event.id event)

  row-Ensures : (event : Event) → Ensures (IsMarked D event.id) (apply_row D parse_lsn event)
  unfolding apply_row mark_applied
  row-Ensures event =
      Ensures-first (mark_applied D parse_lsn event.id event.source.commit_lsn) _
        (mark-Ensures laws parse_lsn event.id _ event.source.commit_lsn) (after_row event.id event)

  apply_marked-Ensures :
      (operation : Operation) (event : Event)
      → Ensures (IsMarked D event.id) (apply_marked D parse_lsn operation event)
  unfolding apply_marked
  apply_marked-Ensures insert_op event = row-Ensures event
  apply_marked-Ensures update_op event = row-Ensures event
  apply_marked-Ensures delete_op event = row-Ensures event
  apply_marked-Ensures truncate_op event = truncate-Ensures event
  apply_marked-Ensures (other_op s) event = row-Ensures event

  pub in_tx-Ensures :
      (event : Event) → Ensures (IsMarked D event.id) (apply_in_tx D parse_lsn event)
  unfolding apply_in_tx
  in_tx-Ensures event = Ensures-later (lift (validate event)) _ (λ _.
      Ensures-later (lift (check_idents event)) _ (λ _. apply_marked-Ensures event.operation event))

  seen :
      (wrap : Error → Error) (id commit_lsn : String) (f : Bool → Action (World D) Bool)
      (w : World D) {a : Bool}
      → f false ≡ pure false
      → IsMarked D id w
      → let m = mark D parse_lsn wrap id commit_lsn >>= f in
        (m w).0 ≡ ok a → (a ≡ false) × ((m w).1 ≡ w)
  seen wrap id commit_lsn f w skip h e =
      let (fresh, answered) = bind-answer (mark D parse_lsn wrap id commit_lsn) f w e in
      let run = mark_seen laws parse_lsn id wrap commit_lsn w h answered in
      let same : (mark D parse_lsn wrap id commit_lsn >>= f) w ≡ (ok false, w) =
        rw (run, skip) refl in
      (ok-injective (sym e ∙ ap (λ x. x.0) same), ap (λ x. x.1) same)

  -- On an event that is marked, an action answers false and changes nothing.
  pub record Skips (id : String) (m : Action (World D) Bool) : Type 0 where
    pub skips :
        (w : World D) {a : Bool} → IsMarked D id w → (m w).0 ≡ ok a → (a ≡ false) × ((m w).1 ≡ w)

  row-Skips : (event : Event) → Skips event.id (apply_row D parse_lsn event)
  unfolding apply_row mark_applied
  row-Skips event = record { skips = λ w h e. seen _ event.id event.source.commit_lsn _ w refl h e }

  truncate-Skips : (event : Event) → Skips event.id (apply_truncate_in_tx D parse_lsn event)
  unfolding apply_truncate_in_tx mark_applied
  truncate-Skips event = record {
    skips = λ w h e. seen _ event.id event.source.commit_lsn _ w refl h e;
  }

  marked-Skips :
      (operation : Operation) (event : Event)
      → Skips event.id (apply_marked D parse_lsn operation event)
  unfolding apply_marked
  marked-Skips insert_op event = row-Skips event
  marked-Skips update_op event = row-Skips event
  marked-Skips delete_op event = row-Skips event
  marked-Skips truncate_op event = truncate-Skips event
  marked-Skips (other_op s) event = row-Skips event

  after_check :
      (r : Result (Unit {0})) (m : Action (World D) Bool) (id : String) (w : World D) {a : Bool}
      → Skips id m
      → IsMarked D id w
      → (continue r (λ _. m) w).0 ≡ ok a
      → (a ≡ false) × ((continue r (λ _. m) w).1 ≡ w)
  after_check (ok _) m id w k h e = k.skips w h e
  after_check (err x) m id w k h e = cc

  checked-Skips :
      (r : Result (Unit {0})) (m : Action (World D) Bool) (id : String)
      → Skips id m
      → Skips id (lift r >> m)
  checked-Skips r m id k = record { skips = λ w h e. after_check r m id w k h e }

  pub in_tx-Skips : (event : Event) → Skips event.id (apply_in_tx D parse_lsn event)
  unfolding apply_in_tx
  in_tx-Skips event =
      checked-Skips (validate event) _ event.id
        (checked-Skips (check_idents event) _ event.id (marked-Skips event.operation event))

  row-IsMarked : (id : String) (event : Event) → Keeps (IsMarked D id) (apply_row D parse_lsn event)
  unfolding apply_row mark_applied
  row-IsMarked id event =
      Keeps-bind (mark_applied D parse_lsn event.id event.source.commit_lsn) _
        (mark-IsMarked laws parse_lsn id _ event.id event.source.commit_lsn) (after_row id event)

  truncate-IsMarked :
      (id : String) (event : Event) → Keeps (IsMarked D id) (apply_truncate_in_tx D parse_lsn event)
  unfolding apply_truncate_in_tx mark_applied
  truncate-IsMarked id event =
      Keeps-bind (mark_applied D parse_lsn event.id event.source.commit_lsn) _
        (mark-IsMarked laws parse_lsn id _ event.id event.source.commit_lsn)
        (after_truncate id event)

  apply_marked-IsMarked :
      (id : String) (operation : Operation) (event : Event)
      → Keeps (IsMarked D id) (apply_marked D parse_lsn operation event)
  unfolding apply_marked
  apply_marked-IsMarked id insert_op event = row-IsMarked id event
  apply_marked-IsMarked id update_op event = row-IsMarked id event
  apply_marked-IsMarked id delete_op event = row-IsMarked id event
  apply_marked-IsMarked id truncate_op event = truncate-IsMarked id event
  apply_marked-IsMarked id (other_op s) event = row-IsMarked id event

  pub in_tx-IsMarked :
      (id : String) (event : Event) → Keeps (IsMarked D id) (apply_in_tx D parse_lsn event)
  unfolding apply_in_tx
  in_tx-IsMarked id event = search (keeps_rules, apply_marked-IsMarked)
