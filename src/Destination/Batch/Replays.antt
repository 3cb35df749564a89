-- ===== src/Destination/Batch/Replays.antt =====
-- `ApplyBatch` (internal/destination/applier.go) on a source transaction that is delivered again.
use pg_live_sync.Prelude.{◌≡◌, refl, ap, ℕ, suc, String, Bool, false, List, [], ◌∷◌, map, All}
use pg_live_sync.Errclass.{Result, ok, err, wrapf}
use pg_live_sync.Action.{Action, lift, map_error, continue, ◌>>=◌, ◌>>◌}
use pg_live_sync.Action.Keeps.{Keeps, Keeps-pure, Keeps-bind}
use pg_live_sync.Action.Ensures.{Ensures, Ensures-first, Ensures-later, Ensures-and, bind-answer}
use pg_live_sync.Cdc.{Event}
use pg_live_sync.Destination.Database.{Database}
use pg_live_sync.Destination.Database.Laws.{Laws}
use pg_live_sync.Destination.Columns.{World}
use pg_live_sync.Destination.Upserts.{LsnParser}
use pg_live_sync.Destination.Apply.Markers.{IsMarked, mark-Ensures, mark_seen}
use pg_live_sync.Destination.Batch.{
  mark_one, mark_batch, close_batch, flush, mutate_batch, apply_batch, check_batch,
}
use pg_live_sync.Destination.Batch.Markers.{
  mark_batch-IsMarked, close_batch-IsMarked, mutate_batch-IsMarked,
}

-- Each of the events is marked as applied.
abbrev pub AreMarked : (D : Database) → List Event → World D → Type 0
AreMarked D events w = All (λ (e : Event). IsMarked D e.id w) events

Keeps-AreMarked :
    {D : Database} {A : Type 0} (events : List Event) (m : Action (World D) A)
    → ((id : String) → Keeps (IsMarked D id) m)
    → Keeps (AreMarked D events) m
Keeps-AreMarked [] m k = record { after = λ w h. tt }
Keeps-AreMarked (event ∷ events) m k = record {
  after = λ w h. ((k event.id).after w (h.0), (Keeps-AreMarked events m k).after w (h.1));
}

module _ {D : Database} (laws : Laws D) (parse_lsn : LsnParser) where
  mark_one-Ensures :
      (i : ℕ) (event : Event) → Ensures (IsMarked D event.id) (mark_one D parse_lsn i event)
  unfolding mark_one
  mark_one-Ensures i event = mark-Ensures laws parse_lsn event.id _ event.source.commit_lsn

  mark_batch-Ensures :
      (i : ℕ) (events : List Event) → Ensures (AreMarked D events) (mark_batch D parse_lsn i events)
  unfolding mark_batch
  mark_batch-Ensures i [] = record { after = λ w e. tt }
  mark_batch-Ensures i (event ∷ events) =
      Ensures-and
        (Ensures-first (mark_one D parse_lsn i event) _ (mark_one-Ensures i event) (λ fresh.
          Keeps-bind (mark_batch D parse_lsn (suc i) events) _
            (mark_batch-IsMarked laws parse_lsn event.id (suc i) events)
            (λ rest. Keeps-pure (fresh ∷ rest))))
        (Ensures-later (mark_one D parse_lsn i event) _ (λ fresh.
          Ensures-first (mark_batch D parse_lsn (suc i) events) _
            (mark_batch-Ensures (suc i) events) (λ rest. Keeps-pure (fresh ∷ rest))))

  after_marking :
      (events : List Event) (fresh : List Bool)
      → Keeps (AreMarked D events) (do
        close_batch D parse_lsn "flush marker batch: %w"
        mutate_batch D parse_lsn 0 events fresh [])
  after_marking events fresh = Keeps-AreMarked events _ (λ id.
      Keeps-bind (close_batch D parse_lsn "flush marker batch: %w") _
        (close_batch-IsMarked laws parse_lsn id _)
        (λ _. mutate_batch-IsMarked laws parse_lsn id 0 events fresh [] tt))

  apply_batch-Ensures :
      (events : List Event) → Ensures (AreMarked D events) (apply_batch D parse_lsn events)
  unfolding apply_batch
  apply_batch-Ensures [] = record { after = λ w e. tt }
  apply_batch-Ensures (event ∷ events) =
      Ensures-later (lift (check_batch 0 (event ∷ events))) _ (λ _.
        Ensures-first (mark_batch D parse_lsn 0 (event ∷ events)) _
          (mark_batch-Ensures 0 (event ∷ events)) (after_marking (event ∷ events)))

  -- After an application of a source transaction that gives no error, each of its events is marked.
  pub apply_batch-AreMarked :
      (events : List Event) (w : World D)
      → (apply_batch D parse_lsn events w).0 ≡ ok tt
      → AreMarked D events (apply_batch D parse_lsn events w).1
  apply_batch-AreMarked events w h = (apply_batch-Ensures events).after w h

  abbrev none_fresh : List Event → List Bool
  none_fresh events = map (λ _. false) events

  mark_one_seen :
      (i : ℕ) (event : Event) (w : World D) {a : Bool}
      → IsMarked D event.id w
      → (mark_one D parse_lsn i event w).0 ≡ ok a
      → mark_one D parse_lsn i event w ≡ (ok false, w)
  unfolding mark_one
  mark_one_seen i event w h run =
      mark_seen laws parse_lsn event.id _ event.source.commit_lsn w h run

  -- A pass over events that are all marked finds none of them new.
  mark_batch_seen :
      (i : ℕ) (events : List Event) (w : World D) {fresh : List Bool}
      → AreMarked D events w
      → (mark_batch D parse_lsn i events w).0 ≡ ok fresh
      → mark_batch D parse_lsn i events w ≡ (ok (none_fresh events), w)
  unfolding mark_batch
  mark_batch_seen i [] w h run = refl
  mark_batch_seen i (event ∷ events) w (marked, h) run =
      let (b, answered) = bind-answer (mark_one D parse_lsn i event) _ w run in
      let one = mark_one_seen i event w marked answered in
      let (rest, later) = bind-answer (mark_batch D parse_lsn (suc i) events) _ w (rw one at run) in
      rw (one, mark_batch_seen (suc i) events w h later) refl

  mutate_nothing :
      (i : ℕ) (events : List Event) (w : World D)
      → mutate_batch D parse_lsn i events (none_fresh events) [] w ≡ (ok tt, w)
  unfolding mutate_batch flush
  mutate_nothing i [] w = refl
  mutate_nothing i (event ∷ events) w = mutate_nothing (suc i) events w

  closed_with :
      (events : List Event) (w : World D) (r : Result (Unit {0}))
      → (continue r (λ _. mutate_batch D parse_lsn 0 events (none_fresh events) []) w).1 ≡ w
  closed_with events w (ok _) = ap (λ x. x.1) (mutate_nothing 0 events w)
  closed_with events w (err e) = refl

  closed :
      (events : List Event) (w : World D)
      → ((do
        close_batch D parse_lsn "flush marker batch: %w"
        mutate_batch D parse_lsn 0 events (none_fresh events) [])
          w).1
        ≡ w
  unfolding close_batch
  closed events w =
      closed_with events w (map_error (wrapf "flush marker batch: %w" []) (D.close_batch w.db))

  checked :
      (events : List Event) (r : Result (Unit {0})) (w : World D)
      → AreMarked D events w
      → let rest = (do
        fresh ← mark_batch D parse_lsn 0 events
        close_batch D parse_lsn "flush marker batch: %w"
        mutate_batch D parse_lsn 0 events fresh []) in
        (continue r (λ _. rest) w).0 ≡ ok tt → (continue r (λ _. rest) w).1 ≡ w
  checked events (err e) w h run = refl
  checked events (ok _) w h run =
      let (fresh, answered) = bind-answer (mark_batch D parse_lsn 0 events) _ w run in
      rw (mark_batch_seen 0 events w h answered) (closed events w)

  -- A source transaction whose events are all marked is applied without any effect: neither the
  -- database nor the applier changes, unless the application fails.
  pub apply_batch_duplicate :
      (events : List Event) (w : World D)
      → AreMarked D events w
      → (apply_batch D parse_lsn events w).0 ≡ ok tt
      → (apply_batch D parse_lsn events w).1 ≡ w
  unfolding apply_batch
  apply_batch_duplicate [] w h run = refl
  apply_batch_duplicate (event ∷ events) w h run =
      checked (event ∷ events) (check_batch 0 (event ∷ events)) w h run

  -- A source transaction takes effect at most once: when it is applied without an error and then
  -- again without an error, the second time changes nothing.
  pub apply_batch_twice :
      (events : List Event) (w : World D)
      → (apply_batch D parse_lsn events w).0 ≡ ok tt
      → (apply_batch D parse_lsn events (apply_batch D parse_lsn events w).1).0 ≡ ok tt
      → (apply_batch D parse_lsn events (apply_batch D parse_lsn events w).1).1
        ≡ (apply_batch D parse_lsn events w).1
  apply_batch_twice events w first =
      apply_batch_duplicate events (apply_batch D parse_lsn events w).1
        (apply_batch-AreMarked events w first)
