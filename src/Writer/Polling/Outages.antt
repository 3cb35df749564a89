-- ===== src/Writer/Polling/Outages.antt =====
-- Kafka outages that end within the retries leave no trace in what `consume` does.
use pg_live_sync.Prelude.{◌≡◌, refl, sym, ap, ◌∙◌, ℕ, suc, none, some, List, [], ◌∷◌, ◌++◌}
use pg_live_sync.Errclass.{Result, ok, err}
use pg_live_sync.Action.{Action, continue}
use pg_live_sync.Cdc.{Event}
use pg_live_sync.Destination.Database.{Database}
use pg_live_sync.Writer.{Writer, Services, handle_event, consume}
use pg_live_sync.Writer.Polling.{
  KafkaRecord, PollRound, brought, handle_record, take_records, Polling, after_records,
  with_records, poll_loop,
}

-- The events from an offset on, each decoded.
abbrev pub numbered : ℕ → List Event → List KafkaRecord
numbered offset [] = []
numbered offset (event ∷ events) = (offset, ok event) ∷ numbered (suc offset) events

-- Every round brings records, and together they are these.
abbrev pub Brings : List PollRound → List KafkaRecord → Type 0
Brings [] records = records ≡ []
Brings (round ∷ rounds) records =
    (now : List KafkaRecord) × (later : List KafkaRecord) × (brought round ≡ some now)
    × (records ≡ now ++ later)
    × Brings rounds later

module _ (D : Database) (V : Services D) where
  -- The loop goes on unless an error ended it.
  abbrev pub goes_on : Result (Unit {0}) × Writer D → Polling D V
  goes_on (ok _, s) = (none, s)
  goes_on (err e, s) = (some (err e), s)

  after_more :
      (n : Action (Writer D) Unit) (r : Result (Unit {0}) × Writer D)
      → after_records D V r (λ s. goes_on (n s)) ≡ goes_on (continue r.0 (λ _. n) r.1)
  unfolding after_records
  after_more n (ok _, s) = refl
  after_more n (err e, s) = refl

  continue_in_parts :
      (whole first second : Action (Writer D) Unit) (r : Result (Unit {0})) (s : Writer D)
      → ((s' : Writer D) → whole s' ≡ continue (first s').0 (λ _. second) (first s').1)
      → continue r (λ _. whole) s
        ≡ continue (continue r (λ _. first) s).0 (λ _. second) (continue r (λ _. first) s).1
  continue_in_parts whole first second (ok _) s k = k s
  continue_in_parts whole first second (err e) s k = refl

  take_records-++ :
      (now later : List KafkaRecord) (s : Writer D)
      → take_records D V (now ++ later) s
        ≡ continue
            (take_records D V now s).0
            (λ _. take_records D V later)
            (take_records D V now s).1
  unfolding take_records
  take_records-++ [] later s = refl
  take_records-++ (first ∷ now) later s =
      continue_in_parts (take_records D V (now ++ later)) (take_records D V now)
        (take_records D V later) (handle_record D V first s).0 (handle_record D V first s).1
        (take_records-++ now later)

  poll_loop-take :
      (rounds : List PollRound) (records : List KafkaRecord) (s : Writer D)
      → Brings rounds records
      → poll_loop D V rounds s ≡ goes_on (take_records D V records s)
  unfolding poll_loop with_records take_records
  poll_loop-take [] records s h = rw h refl
  poll_loop-take (round ∷ rounds) records s (now, later, here, whole, rest) =
      ap (λ found. with_records D V round found s (poll_loop D V rounds)) here
      ∙ ap (after_records D V (take_records D V now s))
          (λ i s'. poll_loop-take rounds later s' rest i)
      ∙ after_more (take_records D V later) (take_records D V now s)
      ∙ ap goes_on (sym (take_records-++ now later s))
      ∙ ap (λ taken. goes_on (take_records D V taken s)) (sym whole)

  taken_in_order :
      (offset : ℕ) (events : List Event) (s : Writer D)
      → take_records D V (numbered offset events) s ≡ consume D V offset events s
  unfolding take_records handle_record consume
  taken_in_order offset [] s = refl
  taken_in_order offset (event ∷ events) s =
      ap
        (λ later.
          continue (handle_event D V offset event s).0 (λ _. later)
            (handle_event D V offset event s).1)
        (λ i s'. taken_in_order (suc offset) events s' i)

  -- As long as each poll brings its records, at once or after an outage that ends within the
  -- retries, the writer's loop does with the events of the topic what it does when it is handed
  -- them one after the other: it goes on with the same state, or ends with the same error.
  pub poll_loop-consume :
      (rounds : List PollRound) (offset : ℕ) (events : List Event) (s : Writer D)
      → Brings rounds (numbered offset events)
      → poll_loop D V rounds s ≡ goes_on (consume D V offset events s)
  poll_loop-consume rounds offset events s h =
      poll_loop-take rounds (numbered offset events) s h
      ∙ ap goes_on (taken_in_order offset events s)
