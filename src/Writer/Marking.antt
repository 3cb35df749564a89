-- ===== src/Writer/Marking.antt =====
-- The fallback of `commitDestinationTransaction` (cmd/destination-writer/main.go) for a group with a poison
-- event: which events are marked afterwards.
use pg_live_sync.Prelude.{
  ◌≡◌, refl, ◌⊎◌, inl, inr, String, str_eq, Bool, true, false, List, [], ◌∷◌, All, if◌then◌else◌,
}
use pg_live_sync.Errclass.{Error, Result, ok, err, is_permanent}
use pg_live_sync.Action.{Action, pure, fail}
use pg_live_sync.Action.Keeps.{Keeps, Keeps-pure, Keeps-fail, Keeps-if, Keeps-bind}
use pg_live_sync.Action.Ensures.{Ensures, Ensures-first, Ensures-later, Ensures-and}
use pg_live_sync.Cdc.{Event}
use pg_live_sync.Destination.Database.{Database}
use pg_live_sync.Destination.Database.Laws.{Laws}
use pg_live_sync.Destination.Apply.{apply}
use pg_live_sync.Destination.Apply.Markers.{IsMarked}
use pg_live_sync.Destination.Apply.Once.{apply-IsMarked, apply-Keeps}
use pg_live_sync.Destination.DeadLetters.{record_dead_letter}
use pg_live_sync.Destination.DeadLetters.Markers.{record-IsMarked, record-Ensures}
use pg_live_sync.Destination.Repair.Markers.{KeepsMarkers}
use pg_live_sync.Writer.{
  Writer, Services, on_world, count_outcome, dead_letter, after_replay, replay_one,
  replay_healthy_events,
}

-- The event is marked in the destination.
abbrev pub IsSettled : (D : Database) → String → Writer D → Type 0
IsSettled D id s = IsMarked D id s.world

module _ {D : Database} (services : Services D) (laws : Laws D)
    (alters : KeepsMarkers services.source) where
  pub count-IsSettled :
      (id : String) (b : Bool) → Keeps (IsSettled D id) (count_outcome D services b)
  unfolding count_outcome
  count-IsSettled id true = record { after = λ s h. h }
  count-IsSettled id false = record { after = λ s h. h }

  record_kept :
      (id : String) (event : Event) (why : Error)
      → Keeps
          (IsSettled D id)
          (on_world D services (record_dead_letter D services.parse_lsn event why))
  record_kept id event why = record {
    after = λ s h. (record-IsMarked laws services.parse_lsn id event why).after s.world h;
  }

  pub dead_letter-IsSettled :
      (id : String) (event : Event) (why : Error)
      → Keeps (IsSettled D id) (dead_letter D services event why)
  unfolding dead_letter
  dead_letter-IsSettled id event why =
      Keeps-bind (on_world D services (record_dead_letter D services.parse_lsn event why)) _
        (record_kept id event why) (λ _. record { after = λ s h. h })

  pub dead_letter-Ensures :
      (event : Event) (why : Error)
      → Ensures (IsSettled D event.id) (dead_letter D services event why)
  unfolding dead_letter
  dead_letter-Ensures event why =
      Ensures-first (on_world D services (record_dead_letter D services.parse_lsn event why)) _
        (record {
          after = λ s e. (record-Ensures laws services.parse_lsn event why).after s.world e;
        })
        (λ _. record { after = λ s h. h })

  replayed-IsSettled :
      (id : String) (event : Event) (r : Result Bool)
      → Keeps (IsSettled D id) (after_replay D services event r)
  unfolding after_replay
  replayed-IsSettled id event (ok b) = count-IsSettled id b
  replayed-IsSettled id event (err e) =
      Keeps-if (is_permanent e) _ _ (dead_letter-IsSettled id event e) (Keeps-fail e)

  replay_one-IsSettled :
      (id : String) (event : Event) → Keeps (IsSettled D id) (replay_one D services event)
  unfolding replay_one
  replay_one-IsSettled id event = record {
    after = λ s h.
        let (r, w) = apply D services.parse_lsn event s.world in
        (replayed-IsSettled id event r).after (record s { world = w })
          ((apply-Keeps laws services.parse_lsn id event).after s.world h);
  }

  pub failed_replay :
      (event : Event) (e : Error) (permanent : Bool) (s : Writer D)
      → ((if permanent then dead_letter D services event e else fail e) s).0 ≡ ok tt
      → IsSettled D event.id ((if permanent then dead_letter D services event e else fail e) s).1
  failed_replay event e true s h = (dead_letter-Ensures event e).after s h
  failed_replay event e false s h = cc

  replay_settles :
      (event : Event) (r : Result Bool) (s : Writer D)
      → ((b : Bool) → r ≡ ok b → IsSettled D event.id s)
      → (after_replay D services event r s).0 ≡ ok tt
      → IsSettled D event.id (after_replay D services event r s).1
  unfolding after_replay
  replay_settles event (ok b) s k h = (count-IsSettled event.id b).after s (k b refl)
  replay_settles event (err e) s k h = failed_replay event e (is_permanent e) s h

  replay_one-Ensures :
      (event : Event) → Ensures (IsSettled D event.id) (replay_one D services event)
  unfolding replay_one
  replay_one-Ensures event = record {
    after = λ s e.
        let (r, w) = apply D services.parse_lsn event s.world in
        replay_settles event r (record s { world = w })
          (λ b at. apply-IsMarked laws services.parse_lsn event s.world at) e;
  }

  step-IsSettled :
      (id poison : String) (event : Event)
      → Keeps
          (IsSettled D id)
          (if str_eq event.id poison then pure tt else replay_one D services event)
  step-IsSettled id poison event =
      Keeps-if (str_eq event.id poison) _ _ (Keeps-pure tt) (replay_one-IsSettled id event)

  healthy-IsSettled :
      (id poison : String) (events : List Event)
      → Keeps (IsSettled D id) (replay_healthy_events D services poison events)
  unfolding replay_healthy_events
  healthy-IsSettled id poison [] = Keeps-pure tt
  healthy-IsSettled id poison (event ∷ events) =
      Keeps-bind (if str_eq event.id poison then pure tt else replay_one D services event) _
        (step-IsSettled id poison event) (λ _. healthy-IsSettled id poison events)

  -- The event is the poison one, or it is settled.
  abbrev pub IsHandled : String → Event → Writer D → Type 0
  IsHandled poison event s = (str_eq event.id poison ≡ true) ⊎ IsSettled D event.id s

  pub Keeps-IsHandled :
      {A : Type 0} (poison : String) (event : Event) (m : Action (Writer D) A)
      → Keeps (IsSettled D event.id) m
      → Keeps (IsHandled poison event) m
  Keeps-IsHandled poison event m k = record {
    after = λ s h. elim h [ inl same ↦ inl same | inr settled ↦ inr (k.after s settled) ];
  }

  step-Ensures :
      (poison : String) (event : Event) (same : Bool)
      → str_eq event.id poison ≡ same
      → Ensures (IsHandled poison event) (if same then pure tt else replay_one D services event)
  step-Ensures poison event true at = record { after = λ s e. inl at }
  step-Ensures poison event false at = record {
    after = λ s e. inr ((replay_one-Ensures event).after s e);
  }

  pub healthy-Ensures :
      (poison : String) (events : List Event)
      → Ensures
          (λ s. All (λ (e : Event). IsHandled poison e s) events)
          (replay_healthy_events D services poison events)
  unfolding replay_healthy_events
  healthy-Ensures poison [] = record { after = λ s e. tt }
  healthy-Ensures poison (event ∷ events) =
      let step = (if str_eq event.id poison then pure tt else replay_one D services event) in
      Ensures-and
        (Ensures-first step _ (step-Ensures poison event (str_eq event.id poison) refl)
          (λ _. Keeps-IsHandled poison event _ (healthy-IsSettled event.id poison events)))
        (Ensures-later step _ (λ _. healthy-Ensures poison events))
