-- ===== src/Reader.antt =====
-- cmd/source-reader/main.go: the reader's replication state and the WAL position that it reports.
pub mod Stream
pub mod Identity
pub mod Producing
pub mod Confirming
pub mod Publishing
pub mod Kafka
pub mod Slots
pub mod Boot
use pg_live_sync.Prelude.{
  ℕ, zero, suc, ◌+◌, ◌-◌, ltb, String, str_eq, Bool, true, false, Option, none, some, List, [], ◌∷◌,
  ◌++◌, is_empty, insert, itoa, if◌then◌else◌,
}
use pg_live_sync.Errclass.{Error, errorf, wrapf, transport, Result, ok, err}
use pg_live_sync.Action.{Action, pure, continue, ◌>>=◌, ◌>>◌}
use pg_live_sync.Retry.{Round, default, do_retry}
use pg_live_sync.Cdc.{Event}
use pg_live_sync.Source.Messages.{Decoder, CommittedTransaction}
use pg_live_sync.Source.Spool.{Codec, Host, reset, next_event}

-- publicationResult
pub data PublicationResult : Type 0 where
  published : CommittedTransaction → PublicationResult
  failed : Error → PublicationResult

-- publishWork
pub data PublishWork : Type 0 where
  event_work : Event → PublishWork
  end_work : CommittedTransaction → PublishWork

-- The reader, and what it has sent: standby statuses to PostgreSQL (each one LSN for write, flush
-- and apply), and work to the publisher.
pub record Reader : Type 0 where
  pub decoder : Decoder
  pub durable_lsn : ℕ
  pub reported : List ℕ
  pub sent : List PublishWork
  pub transactions_acked : ℕ
  pub publish_failures : ℕ
  pub replication_rejoins : ℕ

out_of_source_order : CommittedTransaction → ℕ → Error
out_of_source_order transaction durable =
    errorf
      "Kafka publication completed out of source order: transaction end LSN %s is behind durable LSN %s"
      (itoa transaction.end_lsn ∷ itoa durable ∷ [])

-- The position after a transaction is acknowledged; `behind` where its end lies before it.
pub acknowledge : Bool → CommittedTransaction → Action Reader Unit
unfolding out_of_source_order
acknowledge true transaction r = (err (out_of_source_order transaction r.durable_lsn), r)
acknowledge false transaction r = (
  ok tt,
  record r { durable_lsn = transaction.end_lsn; transactions_acked = suc r.transactions_acked },
)

-- applyPublicationResult
unfoldable pub apply_publication_result : PublicationResult → Action Reader Unit
unfolding acknowledge
apply_publication_result (failed e) r = (err e, r)
apply_publication_result (published transaction) r =
    acknowledge (ltb transaction.end_lsn r.durable_lsn) transaction r

-- drainPublicationResults, over the results that are waiting in the channel; true where the
-- position advanced.
unfoldable pub drain_publication_results : Bool → List PublicationResult → Action Reader Bool
drain_publication_results advanced [] = pure advanced
drain_publication_results advanced (result ∷ results) = do
  apply_publication_result result
  drain_publication_results true results

-- sendStandby: all three positions are the durable one.
unfoldable pub send_standby : Result (Unit {0}) → Action Reader Unit
send_standby (ok _) r = (ok tt, record r { reported = r.durable_lsn ∷ r.reported })
send_standby (err e) r = (
  err (
      wrapf "send PostgreSQL standby status at Kafka-durable LSN %s: %w" (itoa r.durable_lsn ∷ [])
        e),
  r,
)

pub reconnected : Result (Unit {0}) → Action Reader Unit
reconnected (ok _) r = (ok tt, record r { decoder = reset r.decoder })
reconnected (err e) r = (err e, r)

-- reconnect: `dial` is what each attempt meets; a connection resets the decoder.
unfoldable pub reconnect : (ℕ → Round) → Action Reader Unit
unfolding reconnected
reconnect dial r =
    reconnected (do_retry default "reconnect source replication" dial).0
      (record r { replication_rejoins = suc r.replication_rejoins })

-- recoverPublication: `ended` is the context's error.
unfoldable pub recover_publication : Option Error → (ℕ → Round) → Action Reader Unit
unfolding reconnect
recover_publication (some ended) dial r = (err ended, r)
recover_publication none dial r =
    reconnect dial (record r { publish_failures = suc r.publish_failures })

-- What one round of the select of `sendWork` meets.
pub data Selected : Type 0 where
  work_taken : Selected
  result_arrived : PublicationResult → Selected
  status_due : Selected
  context_done : Error → Selected

-- What the reader is connected to: the answers of the standby statuses and of the dials, and the
-- context's error.
pub record Links : Type 0 where
  pub standby : Result (Unit {0})
  pub dial : ℕ → Round
  pub ended : Option Error

-- An answer, unless the reader waits for ever.
abbrev pub Waiting : Type 0
Waiting = Option (Result (Unit {0}) × Reader)

-- `if err != nil { return err }` in a function that may wait.
abbrev pub on_ok : Result (Unit {0}) × Reader → (Reader → Waiting) → Waiting
on_ok (ok _, r) next = next r
on_ok (err e, r) next = some (err e, r)

module _ (links : Links) where
  -- A result that arrives while the reader waits for the publisher.
  after_result : Result (Unit {0}) × Reader → (Reader → Waiting) → Waiting
  after_result (ok _, r) next = on_ok (send_standby links.standby r) next
  after_result (err e, r) next = some (recover_publication links.ended links.dial r)

  -- sendWork, over what its rounds meet; it waits for ever where the rounds do not end it.
  unfoldable pub send_work : PublishWork → List Selected → Reader → Waiting
  unfolding after_result
  send_work message [] r = none
  send_work message (work_taken ∷ rounds) r =
      some (ok tt, record r { sent = r.sent ++ message ∷ [] })
  send_work message (context_done e ∷ rounds) r = some (err e, r)
  send_work message (status_due ∷ rounds) r =
      on_ok (send_standby links.standby r) (send_work message rounds)
  send_work message (result_arrived result ∷ rounds) r =
      after_result (apply_publication_result result r) (send_work message rounds)

-- What the publisher meets at a piece of work: whether its context has ended when it comes to it, or
-- ends while a result waits for the reader; what each try to produce the event to Kafka meets; and
-- whether a try that failed has left a copy of the event in Kafka all the same.
pub record Meeting : Type 0 where
  pub ended : Bool
  pub produce : ℕ → Round
  pub stored : ℕ → Bool
  pub cut : Bool

-- The copies that the first failed tries leave.
pub copies : (ℕ → Bool) → ℕ → Event → List Event
copies stored zero event = []
copies stored (suc n) event =
    let earlier = copies stored n event in if stored (suc n) then event ∷ earlier else earlier

-- results <- ..., or the end of the context
pub sent_back : Bool → PublicationResult → List PublicationResult
sent_back true result = []
sent_back false result = result ∷ []

-- The publisher's state is what Kafka holds; it sends results back.
abbrev pub Published : Type 0
Published = List Event × List PublicationResult

pub acknowledged : Bool → CommittedTransaction → List Event → Published → Published
acknowledged true transaction kafka later = (kafka, [])
acknowledged false transaction kafka (kafka', results) = (kafka', published transaction ∷ results)

-- After a failure the publisher exits.
pub produced :
    Meeting → Event → List Event → Result (Unit {0}) × ℕ → (List Event → Published) → Published
unfolding copies sent_back
produced meeting event kafka (ok _, calls) later =
    later (kafka ++ (copies meeting.stored (calls - 1) event ++ event ∷ []))
produced meeting event kafka (err e, calls) later =
    (kafka ++ copies meeting.stored calls event, sent_back meeting.cut (failed e))

pub unless_ended : Bool → List Event → Published → Published
unless_ended true kafka later = (kafka, [])
unless_ended false kafka later = later

-- publishTransactions, with what it meets at each piece of work
unfoldable pub publish_transactions : (ℕ → Meeting) → List PublishWork → List Event → Published
unfolding acknowledged produced unless_ended
publish_transactions meets [] kafka = (kafka, [])
publish_transactions meets (end_work transaction ∷ work) kafka =
    unless_ended (meets 0).ended kafka (
      acknowledged (meets 0).cut transaction kafka
        (publish_transactions (λ i. meets (suc i)) work kafka))
publish_transactions meets (event_work event ∷ work) kafka = unless_ended (meets 0).ended kafka (
    produced (meets 0) event kafka (do_retry default "publish event to Kafka" (meets 0).produce)
      (publish_transactions (λ i. meets (suc i)) work))
