-- ===== src/Writer/Quarantine.antt =====
-- `quarantinePoison` (cmd/destination-writer/main.go): what becomes of the poison event of a group.
use pg_live_sync.Prelude.{
  ◌≡◌, ◌≢◌, refl, suc, Bool, true, false, ◌⊎◌, inl, inr, none, if◌then◌else◌,
}
use pg_live_sync.Errclass.{Error, Result, ok, err, is_permanent}
use pg_live_sync.Action.{continue, fail, modify}
use pg_live_sync.Cdc.{Event}
use pg_live_sync.Destination.Rows.{is_undefined_column}
use pg_live_sync.Destination.Database.{Database}
use pg_live_sync.Destination.Database.Laws.{Laws}
use pg_live_sync.Destination.Columns.{World}
use pg_live_sync.Destination.Apply.{apply}
use pg_live_sync.Destination.Apply.Markers.{IsMarked}
use pg_live_sync.Destination.DeadLetters.{record_dead_letter}
use pg_live_sync.Destination.DeadLetters.Recording.{StoresLetters, record_dead_letter-IsRecorded}
use pg_live_sync.Destination.Repair.{repair_schema}
use pg_live_sync.Destination.Repair.Markers.{KeepsMarkers}
use pg_live_sync.Writer.{
  Writer, Services, count_outcome, dead_letter, retry_repaired, after_repair, quarantine_poison,
}
use pg_live_sync.Writer.Settling.{quarantine-Ensures}

module _ {D : Database} (services : Services D) (laws : Laws D) (stores : StoresLetters D) where
  -- A dead letter more is counted, and it is in the database.
  abbrev pub Lettered : Event → Writer D → Writer D → Type 0
  Lettered event s s' =
      (s'.dead_letters ≡ suc s.dead_letters) × (D.dead_letter event.id s'.world.db ≢ ok none)

  -- No dead letter more is counted, which only a missing column allows; or there is one.
  abbrev pub Quarantined : Bool → Event → Writer D → Writer D → Type 0
  Quarantined undefined event s s' =
      ((undefined ≡ true) × (s'.dead_letters ≡ s.dead_letters)) ⊎ Lettered event s s'

  letter_counted :
      (event : Event) (r : Result (Unit {0})) (w : World D) (s : Writer D)
      → (r ≡ ok tt → D.dead_letter event.id w.db ≢ ok none)
      → (continue r
          (λ _. modify (λ (s : Writer D). record s { dead_letters = suc s.dead_letters }))
          (record s { world = w })).0
        ≡ ok tt
      → Lettered event s
          (continue r
            (λ _. modify (λ (s : Writer D). record s { dead_letters = suc s.dead_letters }))
            (record s { world = w })).1
  letter_counted event (ok tt) w s k h = (refl, k refl)
  letter_counted event (err e) w s k h = cc

  dead_letter-Lettered :
      (event : Event) (why : Error) (s : Writer D)
      → (dead_letter D services event why s).0 ≡ ok tt
      → Lettered event s (dead_letter D services event why s).1
  unfolding dead_letter
  dead_letter-Lettered event why s h =
      letter_counted event (record_dead_letter D services.parse_lsn event why s.world).0
        (record_dead_letter D services.parse_lsn event why s.world).1 s
        (λ at.
          (record_dead_letter-IsRecorded laws stores services.parse_lsn event why s.world at).1)
        h

  failed_again :
      (event : Event) (e : Error) (permanent : Bool) (s : Writer D)
      → ((if permanent then dead_letter D services event e else fail e) s).0 ≡ ok tt
      → Lettered event s ((if permanent then dead_letter D services event e else fail e) s).1
  failed_again event e true s h = dead_letter-Lettered event e s h
  failed_again event e false s h = cc

  retried :
      (event : Event) (r : Result Bool) (s : Writer D)
      → (retry_repaired D services event r s).0 ≡ ok tt
      → Quarantined true event s (retry_repaired D services event r s).1
  unfolding retry_repaired count_outcome
  retried event (ok true) s h = inl (refl, refl)
  retried event (ok false) s h = inl (refl, refl)
  retried event (err e) s h = inr (failed_again event e (is_permanent e) s h)

  repaired :
      (event : Event) (why : Error) (r : Result Bool) (s : Writer D)
      → (after_repair D services event why r s).0 ≡ ok tt
      → Quarantined true event s (after_repair D services event why r s).1
  unfolding after_repair
  repaired event why (ok true) s h =
      retried event (apply D services.parse_lsn event s.world).0
        (record s { world = (apply D services.parse_lsn event s.world).1 }) h
  repaired event why (ok false) s h = inr (dead_letter-Lettered event why s h)
  repaired event why (err e) s h = inr (dead_letter-Lettered event why s h)

  chosen :
      (event : Event) (why : Error) (undefined : Bool) (s : Writer D)
      → let run =
          (if undefined
            then (let (r, w) = repair_schema D services.source event s.world in
                after_repair D services event why r (record s { world = w }))
            else dead_letter D services event why s) in
        run.0 ≡ ok tt → Quarantined undefined event s run.1
  chosen event why true s h =
      repaired event why (repair_schema D services.source event s.world).0
        (record s { world = (repair_schema D services.source event s.world).1 }) h
  chosen event why false s h = inr (dead_letter-Lettered event why s h)

  quarantined :
      (event : Event) (why : Error) (s : Writer D)
      → (quarantine_poison D services event why s).0 ≡ ok tt
      → Quarantined (is_undefined_column why) event s (quarantine_poison D services event why s).1
  unfolding quarantine_poison
  quarantined event why s h = chosen event why (is_undefined_column why) s h

  -- If `quarantinePoison` gives no error, the poison event is marked, and one dead letter more is
  -- counted and stored: a query for it does not answer that there is none. Only if the event has
  -- failed for a missing column may the count stay, as it does where the event was applied after a
  -- repair. This where PostgreSQL keeps its word on markers, COMMIT and INSERT, and no change of the
  -- schema deletes a marker.
  pub quarantine_poison-IsQuarantined :
      KeepsMarkers services.source
      → (event : Event) (why : Error) (s : Writer D)
      → (quarantine_poison D services event why s).0 ≡ ok tt
      → let after = (quarantine_poison D services event why s).1 in
        IsMarked D event.id after.world × Quarantined (is_undefined_column why) event s after
  quarantine_poison-IsQuarantined alters event why s h =
      ((quarantine-Ensures services laws alters event why).after s h, quarantined event why s h)
