-- ===== src/Reader/Stream/Rounds.antt =====
-- A round of `stream` (cmd/source-reader/main.go) and the position that is reported to PostgreSQL.
use pg_live_sync.Prelude.{ℕ, zero, suc, String, Bool, true, false, Option, none, some, List}
use pg_live_sync.Errclass.{Result, ok, err}
use pg_live_sync.Cdc.{Event}
use pg_live_sync.Source.Messages.{CommittedTransaction}
use pg_live_sync.Source.Spool.{Codec, Host, next_event}
use pg_live_sync.Source.Handle.{handle}
use pg_live_sync.Reader.{
  Reader, PublicationResult, Selected, Links, event_work, end_work, send_standby,
  drain_publication_results, reconnect, Waiting,
}
use pg_live_sync.Reader.Stream.{
  Received, Turn, context_ended, timed_out, dropped, not_copy_data, bad_keepalive, keepalive,
  bad_xlog, logical, returns, goes_on_after, pulled, queue_from, queue_events, queued, decoded,
  drained_status, received, after_status, after_drain, stream_round,
}
use pg_live_sync.Reader.Stream.Position.{
  IsSafe, Reached, drain-IsSafe, send_standby-IsSafe, reconnect-IsSafe, recover-IsSafe,
  send_work-IsSafe, then_queue-IsSafe,
}

module _ (low : ℕ) (links : Links) (codec : Codec) (lsn_text : ℕ → String) (host : Host) where
  pulled-IsSafe :
      (transaction : CommittedTransaction) (sequence : ℕ) (answer : Result (Option Event))
      (next : Event → Reader → Waiting) (r : Reader)
      → IsSafe low r
      → ((event : Event) (s : Reader) → IsSafe low s → Reached (IsSafe low) (next event s))
      → Reached (IsSafe low) (pulled codec lsn_text host links transaction sequence answer next r)
  unfolding pulled
  pulled-IsSafe transaction sequence (err e) next r h k = h
  pulled-IsSafe transaction sequence (ok none) next r h k = h
  pulled-IsSafe transaction sequence (ok (some event)) next r h k = k event r h

  queue_from-IsSafe :
      (transaction : CommittedTransaction) (sequence left : ℕ) (sends : List (List Selected))
      (r : Reader)
      → IsSafe low r
      → Reached
          (IsSafe low)
          (queue_from codec lsn_text host links transaction sequence left sends r)
  unfolding queue_from
  queue_from-IsSafe transaction sequence zero sends r h =
      send_work-IsSafe low links (end_work transaction) _ r h
  queue_from-IsSafe transaction sequence (suc left) sends r h =
      pulled-IsSafe transaction sequence (next_event codec lsn_text host r.decoder).0 _
        (record r { decoder = (next_event codec lsn_text host r.decoder).1 }) h
        (λ event s k.
          then_queue-IsSafe low links _ _ (send_work-IsSafe low links (event_work event) _ s k)
            (queue_from-IsSafe transaction (suc sequence) left _))

  goes_on-IsSafe :
      (answer : Result (Unit {0}) × Reader)
      → IsSafe low answer.1
      → IsSafe low (goes_on_after answer).1
  unfolding goes_on_after
  goes_on-IsSafe (ok _, r) h = h
  goes_on-IsSafe (err e, r) h = h

  queued-IsSafe :
      (waiting : Waiting)
      → Reached (IsSafe low) waiting
      → Reached (IsSafe low) (queued codec lsn_text host links waiting)
  unfolding queued
  queued-IsSafe none h = tt
  queued-IsSafe (some answer) h = goes_on-IsSafe answer h

  decoded-IsSafe :
      (sends : List (List Selected)) (answer : Result (Option CommittedTransaction)) (r : Reader)
      → IsSafe low r
      → Reached (IsSafe low) (decoded codec lsn_text host links sends answer r)
  unfolding decoded queue_events
  decoded-IsSafe sends (err e) r h = h
  decoded-IsSafe sends (ok none) r h = h
  decoded-IsSafe sends (ok (some transaction)) r h =
      queued-IsSafe _ (queue_from-IsSafe transaction 1 transaction.count sends r h)

  drained_status-IsSafe :
      (drained : Result Bool × Reader)
      → IsSafe low drained.1
      → IsSafe low (drained_status codec lsn_text host links drained).1
  unfolding drained_status returns
  drained_status-IsSafe (err e, r) h = recover-IsSafe low links.ended links.dial r h
  drained_status-IsSafe (ok advanced, r) h =
      goes_on-IsSafe (send_standby links.standby r) (send_standby-IsSafe low links.standby r h)

  received-IsSafe :
      (message : Received) (r : Reader)
      → IsSafe low r
      → Reached (IsSafe low) (received codec lsn_text host links message r)
  unfolding received
  received-IsSafe context_ended r h = send_standby-IsSafe low links.standby r h
  received-IsSafe (timed_out waiting) r h =
      drained_status-IsSafe _ ((drain-IsSafe low false waiting).after r h)
  received-IsSafe dropped r h =
      goes_on-IsSafe (reconnect links.dial r) (reconnect-IsSafe low links.dial r h)
  received-IsSafe not_copy_data r h = h
  received-IsSafe (bad_keepalive e) r h = h
  received-IsSafe (keepalive false waiting) r h = h
  received-IsSafe (keepalive true waiting) r h =
      drained_status-IsSafe _ ((drain-IsSafe low false waiting).after r h)
  received-IsSafe (bad_xlog e) r h = h
  received-IsSafe (logical message sends) r h =
      decoded-IsSafe sends (handle codec host message r.decoder).0
        (record r { decoder = (handle codec host message r.decoder).1 }) h

  after_status-IsSafe :
      (message : Received) (turn : Turn)
      → IsSafe low turn.1
      → Reached (IsSafe low) (after_status codec lsn_text host links message turn)
  unfolding after_status
  after_status-IsSafe message (some answer, r) h = h
  after_status-IsSafe message (none, r) h = received-IsSafe message r h

  after_drain-IsSafe :
      (message : Received) (drained : Result Bool × Reader)
      → IsSafe low drained.1
      → Reached (IsSafe low) (after_drain codec lsn_text host links message drained)
  unfolding after_drain returns
  after_drain-IsSafe message (err e, r) h = recover-IsSafe low links.ended links.dial r h
  after_drain-IsSafe message (ok true, r) h =
      after_status-IsSafe message (goes_on_after (send_standby links.standby r))
        (goes_on-IsSafe (send_standby links.standby r) (send_standby-IsSafe low links.standby r h))
  after_drain-IsSafe message (ok false, r) h = received-IsSafe message r h

  -- In a round of `stream`, whatever arrives and whatever fails, the position that the reader holds
  -- for durable in Kafka does not go back, and every position that it has reported to PostgreSQL is
  -- at most the durable one and at least those reported before.
  pub stream_round-IsSafe :
      (waiting : List PublicationResult) (message : Received) (r : Reader)
      → IsSafe low r
      → Reached (IsSafe low) (stream_round codec lsn_text host links waiting message r)
  unfolding stream_round
  stream_round-IsSafe waiting message r h =
      after_drain-IsSafe message (drain_publication_results false waiting r)
        ((drain-IsSafe low false waiting).after r h)
