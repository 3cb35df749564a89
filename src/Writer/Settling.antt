-- ===== src/Writer/Settling.antt =====
-- `commitDestinationTransaction` and `closeGroup` (cmd/destination-writer/main.go): no event is skipped.
use pg_live_sync.Prelude.{
  ◌≡◌, refl, inl, inr, String, eq_iff, Bool, true, false, Option, none, some, List, [], ◌∷◌, All,
  if◌then◌else◌, arith,
}
use pg_live_sync.Errclass.{Error, Result, ok, err, is_permanent}
use pg_live_sync.Action.{Action}
use pg_live_sync.Action.Keeps.{Keeps, Keeps-fail, Keeps-if}
use pg_live_sync.Action.Ensures.{Ensures, Ensures-first, Ensures-later, Ensures-and}
use pg_live_sync.Cdc.{Event}
use pg_live_sync.Destination.Rows.{is_undefined_column}
use pg_live_sync.Destination.Database.{Database}
use pg_live_sync.Destination.Database.Laws.{Laws}
use pg_live_sync.Destination.Apply.{apply}
use pg_live_sync.Destination.Apply.Once.{apply-IsMarked, apply-Keeps}
use pg_live_sync.Destination.Repair.{repair_schema}
use pg_live_sync.Destination.Repair.Markers.{KeepsMarkers, repair-IsMarked}
use pg_live_sync.Writer.{
  Writer, Services, retry_repaired, after_repair, replay_healthy_events, quarantine_poison, isolate,
}
use pg_live_sync.Writer.Marking.{
  IsSettled, IsHandled, Keeps-IsHandled, count-IsSettled, dead_letter-IsSettled,
  dead_letter-Ensures, failed_replay, healthy-Ensures,
}

-- Each event of the group is marked in the destination.
abbrev pub AreSettled : (D : Database) → List Event → Writer D → Type 0
AreSettled D events s = All (λ (e : Event). IsSettled D e.id s) events

module _ {D : Database} (services : Services D) (laws : Laws D)
    (alters : KeepsMarkers services.source) where
  retried-IsSettled :
      (id : String) (event : Event) (r : Result Bool)
      → Keeps (IsSettled D id) (retry_repaired D services event r)
  unfolding retry_repaired
  retried-IsSettled id event (ok b) = count-IsSettled services laws alters id b
  retried-IsSettled id event (err e) =
      Keeps-if (is_permanent e) _ _ (dead_letter-IsSettled services laws alters id event e)
        (Keeps-fail e)

  retry_settles :
      (event : Event) (r : Result Bool) (s : Writer D)
      → ((b : Bool) → r ≡ ok b → IsSettled D event.id s)
      → (retry_repaired D services event r s).0 ≡ ok tt
      → IsSettled D event.id (retry_repaired D services event r s).1
  unfolding retry_repaired
  retry_settles event (ok b) s k h =
      (count-IsSettled services laws alters event.id b).after s (k b refl)
  retry_settles event (err e) s k h =
      failed_replay services laws alters event e (is_permanent e) s h

  repaired-IsSettled :
      (id : String) (event : Event) (why : Error) (r : Result Bool)
      → Keeps (IsSettled D id) (after_repair D services event why r)
  unfolding after_repair
  repaired-IsSettled id event why (ok true) = record {
    after = λ s h.
        let (r, w) = apply D services.parse_lsn event s.world in
        (retried-IsSettled id event r).after (record s { world = w })
          ((apply-Keeps laws services.parse_lsn id event).after s.world h);
  }
  repaired-IsSettled id event why (ok false) =
      dead_letter-IsSettled services laws alters id event why
  repaired-IsSettled id event why (err e) = dead_letter-IsSettled services laws alters id event why

  repaired-Ensures :
      (event : Event) (why : Error) (r : Result Bool)
      → Ensures (IsSettled D event.id) (after_repair D services event why r)
  unfolding after_repair
  repaired-Ensures event why (ok true) = record {
    after = λ s e.
        let (r, w) = apply D services.parse_lsn event s.world in
        retry_settles event r (record s { world = w })
          (λ b at. apply-IsMarked laws services.parse_lsn event s.world at) e;
  }
  repaired-Ensures event why (ok false) = dead_letter-Ensures services laws alters event why
  repaired-Ensures event why (err e) = dead_letter-Ensures services laws alters event why

  repair : Event → Error → Action (Writer D) Unit
  repair event why s =
      let (r, w) = repair_schema D services.source event s.world in
      after_repair D services event why r (record s { world = w })

  repair-IsSettled :
      (id : String) (event : Event) (why : Error) → Keeps (IsSettled D id) (repair event why)
  unfolding repair
  repair-IsSettled id event why = record {
    after = λ s h.
        let (r, w) = repair_schema D services.source event s.world in
        (repaired-IsSettled id event why r).after (record s { world = w })
          ((repair-IsMarked laws services.parse_lsn alters id event).after s.world h);
  }

  repair-Ensures : (event : Event) (why : Error) → Ensures (IsSettled D event.id) (repair event why)
  unfolding repair
  repair-Ensures event why = record {
    after = λ s e.
        let (r, w) = repair_schema D services.source event s.world in
        (repaired-Ensures event why r).after (record s { world = w }) e;
  }

  either-IsSettled :
      (id : String) (b : Bool) (m n : Action (Writer D) Unit)
      → Keeps (IsSettled D id) m
      → Keeps (IsSettled D id) n
      → Keeps (IsSettled D id) (λ s. if b then m s else n s)
  either-IsSettled id true m n k l = k
  either-IsSettled id false m n k l = l

  either-Ensures :
      (id : String) (b : Bool) (m n : Action (Writer D) Unit)
      → Ensures (IsSettled D id) m
      → Ensures (IsSettled D id) n
      → Ensures (IsSettled D id) (λ s. if b then m s else n s)
  either-Ensures id true m n k l = k
  either-Ensures id false m n k l = l

  quarantine-IsSettled :
      (id : String) (event : Event) (why : Error)
      → Keeps (IsSettled D id) (quarantine_poison D services event why)
  unfolding quarantine_poison repair
  quarantine-IsSettled id event why =
      either-IsSettled id (is_undefined_column why) (repair event why) _
        (repair-IsSettled id event why) (dead_letter-IsSettled services laws alters id event why)

  pub quarantine-Ensures :
      (event : Event) (why : Error)
      → Ensures (IsSettled D event.id) (quarantine_poison D services event why)
  unfolding quarantine_poison repair
  quarantine-Ensures event why =
      either-Ensures event.id (is_undefined_column why) (repair event why) _
        (repair-Ensures event why) (dead_letter-Ensures services laws alters event why)

  Keeps-All :
      {A : Type 0} (poison : String) (events : List Event) (m : Action (Writer D) A)
      → ((id : String) → Keeps (IsSettled D id) m)
      → Keeps (λ s. All (λ (e : Event). IsHandled services laws alters poison e s) events) m
  Keeps-All poison [] m k = record { after = λ s h. tt }
  Keeps-All poison (event ∷ events) m k = record {
    after = λ s h. (
      (Keeps-IsHandled services laws alters poison event m (k event.id)).after s (h.0),
      (Keeps-All poison events m k).after s (h.1),
    );
  }

  settle :
      (poison : String) (events : List Event) (s : Writer D)
      → IsSettled D poison s
      → All (λ (e : Event). IsHandled services laws alters poison e s) events
      → AreSettled D events s
  settle poison [] s settled h = tt
  settle poison (event ∷ events) s settled (inr there, h) =
      (there, settle poison events s settled h)
  settle poison (event ∷ events) s settled (inl same, h) =
      let equal : event.id ≡ poison = ground (arith, eq_iff event.id poison) in
      (rw equal settled, settle poison events s settled h)

  pub isolate-Ensures :
      (events : List Event) (poison : Option Event) (why : Error)
      → Ensures (AreSettled D events) (isolate D services events poison why)
  unfolding isolate
  isolate-Ensures events none why = record { after = λ s e. cc }
  isolate-Ensures events (some poison) why =
      let both =
        Ensures-and
          (Ensures-later (replay_healthy_events D services poison.id events)
            (λ _. quarantine_poison D services poison why) (λ _. quarantine-Ensures poison why))
          (Ensures-first (replay_healthy_events D services poison.id events)
            (λ _. quarantine_poison D services poison why)
            (healthy-Ensures services laws alters poison.id events)
            (λ _. Keeps-All poison.id events _ (λ id. quarantine-IsSettled id poison why))) in
      record {
        after = λ s e.
            let (settled, handled) = both.after s e in
            settle poison.id events (isolate D services events (some poison) why s).1 settled
              handled;
      }
