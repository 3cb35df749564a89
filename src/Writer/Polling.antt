-- ===== src/Writer/Polling.antt =====
-- `consume` of cmd/destination-writer/main.go: the polls, the retries of failed polls, and the
-- decoding of the records. What Kafka and the context bring is an argument.
pub mod Outages
pub mod GivingUp
use pg_live_sync.Prelude.{
  ◌≡◌, refl, sym, ap, ◌∙◌, ℕ, suc, Bool, true, false, Option, none, some, List, [], ◌∷◌, ◌++◌, itoa,
}
use pg_live_sync.Errclass.{Error, errorf, wrapf, Result, ok, err}
use pg_live_sync.Action.{Action, pure, continue, ◌>>=◌, ◌>>◌}
use pg_live_sync.Retry.{Round, default, do_retry}
use pg_live_sync.Cdc.{Event}
use pg_live_sync.Destination.Database.{Database}
use pg_live_sync.Writer.{Writer, Services, handle_event, consume, shutdown}

-- A record: its offset, and what json.Unmarshal makes of its value.
abbrev pub KafkaRecord : Type 0
KafkaRecord = ℕ × Result Event

-- What PollRecords brings, and the context's error after it.
pub record Polled : Type 0 where
  pub cancelled : Option Error
  pub errors : List Error
  pub records : List KafkaRecord

-- A round of the loop: the first poll, those of the retries and the waits after them, and the
-- context's error when `shutdown` asks for it.
pub record PollRound : Type 0 where
  pub first : Polled
  pub again : ℕ → Polled
  pub waits : ℕ → Option Error
  pub ended : Option Error

fetch_failure : List Error → Option Error
fetch_failure [] = none
fetch_failure (e ∷ errors) = some (errorf "poll Kafka: %v" [])

-- What the function that `retry.Do` calls returns.
poll_failure : Option Error → List Error → Option Error
unfolding fetch_failure
poll_failure (some ended) errors = some ended
poll_failure none errors = fetch_failure errors

attempt : PollRound → ℕ → Round
unfolding poll_failure
attempt round i = record {
  outcome = poll_failure (round.again i).cancelled (round.again i).errors;
  cancelled = round.waits i;
}

after_retry : PollRound → Result (Unit {0}) × ℕ → Option (List KafkaRecord)
after_retry round (ok _, calls) = some (round.again calls).records
after_retry round (err e, calls) = none

fetched : PollRound → List Error → Option (List KafkaRecord)
unfolding attempt after_retry
fetched round [] = some round.first.records
fetched round (e ∷ errors) = after_retry round (do_retry default "poll Kafka" (attempt round))

records_unless : PollRound → Option Error → Option (List KafkaRecord)
unfolding fetched
records_unless round (some ended) = none
records_unless round none = fetched round round.first.errors

-- The records of a round; `none` where the writer shuts down.
unfoldable pub brought : PollRound → Option (List KafkaRecord)
unfolding records_unless
brought round = records_unless round round.first.cancelled

-- `return ctx.Err()`
context_error : Option Error → Result (Unit {0})
context_error none = ok tt
context_error (some e) = err e

module _ (D : Database) (V : Services D) where
  pub handle_record : KafkaRecord → Action (Writer D) Unit
  handle_record (offset, ok event) s = handle_event D V offset event s
  handle_record (offset, err e) s =
      (err (wrapf "decode Kafka record at offset %d: %w" (itoa offset ∷ []) e), s)

  unfoldable pub take_records : List KafkaRecord → Action (Writer D) Unit
  unfolding handle_record
  take_records [] = pure tt
  take_records (first ∷ records) = do handle_record first; take_records records

  -- What `consume` returned, unless it is still polling.
  abbrev pub Polling : Type 0
  Polling = Option (Result (Unit {0})) × Writer D

  pub after_records : Result (Unit {0}) × Writer D → (Writer D → Polling) → Polling
  after_records (ok _, s) next = next s
  after_records (err e, s) next = (some (err e), s)

  pub with_records :
      PollRound → Option (List KafkaRecord) → Writer D → (Writer D → Polling) → Polling
  unfolding context_error after_records
  with_records round none s next = (some (context_error round.ended), shutdown D V s)
  with_records round (some records) s next = after_records (take_records records s) next

  -- `consume`, over the rounds of its loop
  unfoldable pub poll_loop : List PollRound → Writer D → Polling
  unfolding with_records
  poll_loop [] s = (none, s)
  poll_loop (round ∷ rounds) s = with_records round (brought round) s (poll_loop rounds)
