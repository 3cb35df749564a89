-- ===== src/Reader/Stream.antt =====
-- `queueTransactionEvents`, `stream` and `finalStandby` of cmd/source-reader/main.go.
pub mod Position
pub mod Rounds
pub mod Sending
pub mod Queueing
use pg_live_sync.Prelude.{
  ℕ, zero, suc, ◌+◌, String, Bool, true, false, Option, none, some, List, [], ◌∷◌, itoa,
}
use pg_live_sync.Errclass.{Error, errorf, wrapf, transport, Result, ok, err}
use pg_live_sync.Cdc.{Event}
use pg_live_sync.Source.Messages.{Message, Decoder, CommittedTransaction}
use pg_live_sync.Source.Spool.{Codec, Host, next_event}
use pg_live_sync.Source.Handle.{handle}
use pg_live_sync.Reader.{
  Reader, PublicationResult, PublishWork, event_work, end_work, Selected, Links, Waiting, on_ok,
  send_work, send_standby, drain_publication_results, reconnect, recover_publication,
}

-- What `ReceiveMessage` brings before the next status is due. The results that wait in the channel
-- at a later drain of the same round, and the rounds of each `sendWork`, stand beside it.
pub data Received : Type 0 where
  context_ended : Received
  timed_out : List PublicationResult → Received
  dropped : Received
  not_copy_data : Received
  bad_keepalive : Error → Received
  keepalive : Bool → List PublicationResult → Received
  bad_xlog : Error → Received
  logical : Message → List (List Selected) → Received

-- How a round ends: `none` where the loop goes on, else what `stream` returns.
abbrev pub Turn : Type 0
Turn = Option (Result (Unit {0})) × Reader

context_canceled : Error
context_canceled = errorf "context canceled" []

returns : Result (Unit {0}) × Reader → Turn
returns (r, reader) = (some r, reader)

goes_on_after : Result (Unit {0}) × Reader → Turn
goes_on_after (ok _, reader) = (none, reader)
goes_on_after (err e, reader) = (some (err e), reader)

-- A `sendWork` that is waited for.
pub then_queue : (Reader → Waiting) → Waiting → Waiting
then_queue next none = none
then_queue next (some answer) = on_ok answer next

module _ (codec : Codec) (lsn_text : ℕ → String) (host : Host) (links : Links) where
  -- One event, or the reason why there is none.
  pulled :
      CommittedTransaction
      → ℕ
      → Result (Option Event)
      → (Event → Reader → Waiting)
      → Reader
      → Waiting
  pulled transaction sequence (err e) next r = some (err e, r)
  pulled transaction sequence (ok none) next r = some (
    err (
        errorf "transaction %d ended early at sequence %d of %d"
          (itoa transaction.transaction_id ∷ itoa sequence ∷ itoa transaction.count ∷ [])),
    r,
  )
  pulled transaction sequence (ok (some event)) next r = next event r

  rounds_of : List (List Selected) → List Selected
  rounds_of [] = []
  rounds_of (rounds ∷ later) = rounds

  later_of : List (List Selected) → List (List Selected)
  later_of [] = []
  later_of (rounds ∷ later) = later

  -- The loop, with the number of events that are left; `sends` has the rounds of each `sendWork`.
  unfoldable pub queue_from : CommittedTransaction → ℕ → ℕ → List (List Selected) → Reader → Waiting
  unfolding then_queue pulled rounds_of later_of
  queue_from transaction sequence zero sends r =
      send_work links (end_work transaction) (rounds_of sends) r
  queue_from transaction sequence (suc left) sends r =
      let (answer, decoder) = next_event codec lsn_text host r.decoder in
      pulled transaction sequence answer
        (λ event s.
          then_queue (queue_from transaction (suc sequence) left (later_of sends))
            (send_work links (event_work event) (rounds_of sends) s))
        (record r { decoder = decoder })

  -- queueTransactionEvents
  unfoldable pub queue_events : CommittedTransaction → List (List Selected) → Reader → Waiting
  unfolding queue_from
  queue_events transaction sends r = queue_from transaction 1 transaction.count sends r

  queued : Waiting → Option Turn
  unfolding goes_on_after
  queued none = none
  queued (some answer) = some (goes_on_after answer)

  -- A decoded message; a transaction that is complete is queued.
  decoded : List (List Selected) → Result (Option CommittedTransaction) → Reader → Option Turn
  unfolding queue_events queued
  decoded sends (err e) r = some (some (err (wrapf "decode pgoutput message at %s: %w" [] e)), r)
  decoded sends (ok none) r = some (none, r)
  decoded sends (ok (some transaction)) r = queued (queue_events transaction sends r)

  -- drainPublicationResults followed by a status, or by the recovery.
  drained_status : Result Bool × Reader → Turn
  unfolding goes_on_after returns
  drained_status (err e, r) = returns (recover_publication links.ended links.dial r)
  drained_status (ok advanced, r) = goes_on_after (send_standby links.standby r)

  received : Received → Reader → Option Turn
  unfolding drained_status decoded goes_on_after context_canceled
  received context_ended r = some (some (err context_canceled), (send_standby links.standby r).1)
  received (timed_out waiting) r = some (drained_status (drain_publication_results false waiting r))
  received dropped r = some (goes_on_after (reconnect links.dial r))
  received not_copy_data r = some (none, r)
  received (bad_keepalive e) r = some (some (err (wrapf "parse primary keepalive: %w" [] e)), r)
  received (keepalive false waiting) r = some (none, r)
  received (keepalive true waiting) r =
      some (drained_status (drain_publication_results false waiting r))
  received (bad_xlog e) r = some (some (err e), r)
  received (logical message sends) r =
      let (answer, decoder) = handle codec host message r.decoder in
      decoded sends answer (record r { decoder = decoder })

  after_status : Received → Turn → Option Turn
  unfolding received
  after_status message (some answer, r) = some (some answer, r)
  after_status message (none, r) = received message r

  after_drain : Received → Result Bool × Reader → Option Turn
  unfolding after_status goes_on_after returns
  after_drain message (err e, r) = some (returns (recover_publication links.ended links.dial r))
  after_drain message (ok true, r) =
      after_status message (goes_on_after (send_standby links.standby r))
  after_drain message (ok false, r) = received message r

  -- One round of the loop of `stream`; `none` where a `sendWork` waits for ever.
  unfoldable pub stream_round : List PublicationResult → Received → Reader → Option Turn
  unfolding after_drain
  stream_round waiting message r = after_drain message (drain_publication_results false waiting r)
