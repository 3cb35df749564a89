-- ===== src/Scenarios/Reading.antt =====
-- Runs of cmd/source-reader.
use pg_live_sync.Prelude.{
  ◌≡◌, refl, ℕ, zero, suc, true, false, none, some, List, [], ◌∷◌, ◌++◌, map, arith,
}
use pg_live_sync.Errclass.{transport, ok}
use pg_live_sync.Cdc.{Event}
use pg_live_sync.Source.Messages.{CommittedTransaction, PendingChange, PullState}
use pg_live_sync.Source.Spool.Pulling.Lines.{end}
use pg_live_sync.Source.Spool.Pulling.Draining.{events_of}
use pg_live_sync.Reader.{
  Reader, Links, Meeting, PublishWork, Selected, status_due, result_arrived, work_taken, published,
  failed, event_work, end_work, publish_transactions, drain_publication_results,
}
use pg_live_sync.Reader.Stream.{timed_out, queue_events, stream_round}
use pg_live_sync.Reader.Stream.Position.{IsSafe, Reached}
use pg_live_sync.Reader.Stream.Rounds.{stream_round-IsSafe}
use pg_live_sync.Reader.Stream.Queueing.{Delivers, HandsOver, all_taken, queue_events-HandsOver}
use pg_live_sync.Reader.Producing.{Sent, works_of}
use pg_live_sync.Reader.Confirming.{IsConfirmed}
use pg_live_sync.Reader.Publishing.{published-IsConfirmed}
use pg_live_sync.Scenarios.{first_event, second_event, good_round}
use pg_live_sync.Scenarios.Retrying.{second_round}
use pg_live_sync.Scenarios.Decoding.{
  sample_change, sample_codec, sample_host, sample_lsn_text, small_decoder,
}

abbrev sample_transaction : ℕ → CommittedTransaction
sample_transaction lsn = record {
  transaction_id = 42;
  commit_lsn = 16;
  end_lsn = lsn;
  commit_time = 1000;
  count = 2;
}

abbrev idle_reader : Reader
idle_reader = record {
  decoder = small_decoder;
  durable_lsn = 16;
  reported = 16 ∷ 8 ∷ [];
  sent = [];
  transactions_acked = 1;
  publish_failures = 0;
  replication_rejoins = 0;
}

abbrev good_links : Links
good_links = record { standby = ok tt; dial = good_round; ended = none }

stream_round_example : Reached (IsSafe 16) (
    stream_round sample_codec sample_lsn_text sample_host good_links
      (published (sample_transaction 32) ∷ [])
      (timed_out (failed (transport "unavailable") ∷ []))
      idle_reader)
stream_round_example =
    stream_round-IsSafe 16 good_links sample_codec sample_lsn_text sample_host
      (published (sample_transaction 32) ∷ []) (timed_out (failed (transport "unavailable") ∷ []))
      idle_reader (omega arith, (omega arith, (omega arith, tt)))

abbrev two_changes : List PendingChange
two_changes = sample_change ∷ sample_change ∷ []

abbrev sample_pull : PullState
sample_pull = record {
  commit = sample_transaction 32;
  changes = two_changes;
  spool = none;
  seq = 0;
}

abbrev pulling_reader : Reader
pulling_reader = record idle_reader { decoder = record small_decoder { pull = some sample_pull } }

-- The first piece of work waits for a status and a result, and the last one meets a failure.
abbrev busy_sends : List (List Selected)
busy_sends =
    (status_due ∷ result_arrived (published (sample_transaction 32)) ∷ work_taken ∷ [])
    ∷ (work_taken ∷ [])
    ∷ (result_arrived (failed (transport "unavailable")) ∷ [])
    ∷ []

abbrev sample_work : List PublishWork
sample_work =
    map event_work (events_of sample_lsn_text (sample_transaction 32) 0 two_changes)
    ++ end_work (sample_transaction 32) ∷ []

queue_events_example :
    Delivers sample_codec pulling_reader sample_work (
      queue_events sample_codec sample_lsn_text sample_host good_links
        (sample_transaction 32)
        busy_sends
        pulling_reader)
    × HandsOver sample_codec pulling_reader sample_work (
        queue_events sample_codec sample_lsn_text sample_host good_links
          (sample_transaction 32)
          (all_taken 2)
          pulling_reader)
queue_events_example =
    queue_events-HandsOver sample_codec sample_lsn_text sample_host good_links refl
      (sample_transaction 32) pulling_reader sample_pull two_changes busy_sends refl refl refl refl
      (record { spooled = []; lines = end; in_order = refl })

abbrev sample_sent : List Sent
sample_sent =
    (sample_transaction 32, first_event ∷ second_event ∷ [])
    ∷ (sample_transaction 48, first_event ∷ [])
    ∷ []

-- The first event's first try fails, but leaves its copy in Kafka.
abbrev sample_meets : ℕ → Meeting
sample_meets zero = record {
  ended = false;
  produce = second_round;
  stored = λ attempt. true;
  cut = false;
}
sample_meets (suc i) = record {
  ended = false;
  produce = good_round;
  stored = λ attempt. false;
  cut = false;
}

published_twice : publish_transactions sample_meets (works_of sample_sent) [] ≡ (
  first_event ∷ first_event ∷ second_event ∷ first_event ∷ [],
  published (sample_transaction 32) ∷ published (sample_transaction 48) ∷ [],
)
unfolding publish_transactions pg_live_sync.Retry.do_retry
published_twice = refl

published_example :
    (added : List Event) × ((publish_transactions sample_meets (works_of sample_sent) []).0
      ≡ [] ++ added)
    × IsConfirmed sample_sent added 16
        (drain_publication_results false
          (publish_transactions sample_meets (works_of sample_sent) []).1
          idle_reader).1.durable_lsn
published_example = published-IsConfirmed sample_meets sample_sent [] idle_reader
