-- ===== src/Reader/Publishing.antt =====
-- `publishTransactions` of cmd/source-reader/main.go, and what its results let the reader report.
use pg_live_sync.Prelude.{
  ◌≡◌, refl, sym, ◌∙◌, ℕ, suc, ◌-◌, Bool, true, false, ◌⊎◌, inl, inr, List, [], ◌∷◌, ◌++◌, map,
}
use mathlib.Core.List.{append-nil, append_assoc}
use pg_live_sync.Errclass.{Result, ok, err}
use pg_live_sync.Retry.{default, do_retry}
use pg_live_sync.Cdc.{Event}
use pg_live_sync.Source.Messages.{CommittedTransaction}
use pg_live_sync.Reader.{
  Reader, event_work, end_work, Meeting, Published, copies, acknowledged, unless_ended, produced,
  publish_transactions, drain_publication_results,
}
use pg_live_sync.Reader.Producing.{
  Sent, works_of, nothing, Progress, all_done, acked, halted, stopped, earlier, more,
}
use pg_live_sync.Reader.Confirming.{IsConfirmed, drain-IsConfirmed}

-- The publisher's run, from what Kafka holds before.
pub record Publishes (meets : ℕ → Meeting) (kafka : List Event) (sent : List Sent) (run : Published)
    : Type 0 where
  pub added : List Event
  pub in_kafka : run.0 ≡ kafka ++ added
  pub progress : Progress meets sent added run.1

-- The context has ended before a transaction's end is acknowledged.
halts :
    (meets : ℕ → Meeting) (kafka : List Event) (transaction : CommittedTransaction)
    (rest : List Event) (sent : List Sent)
    → ((meets 0).ended ≡ true) ⊎ ((meets 0).cut ≡ true)
    → Publishes meets kafka ((transaction, rest) ∷ sent) (kafka, [])
halts meets kafka transaction rest sent ends = record {
  added = [];
  in_kafka = sym (append-nil kafka);
  progress = halted transaction rest 0 nothing ends;
}

unless_ended-Publishes :
    (meets : ℕ → Meeting) (kafka : List Event) (transaction : CommittedTransaction)
    (events : List Event) (sent : List Sent) (ended : Bool) (run : Published)
    → (meets 0).ended ≡ ended
    → Publishes meets kafka ((transaction, events) ∷ sent) run
    → Publishes meets kafka ((transaction, events) ∷ sent) (unless_ended ended kafka run)
unfolding unless_ended
unless_ended-Publishes meets kafka transaction events sent true run at p =
    halts meets kafka transaction events sent (inl at)
unless_ended-Publishes meets kafka transaction events sent false run at p = p

acknowledged-Publishes :
    (meets : ℕ → Meeting) (kafka : List Event) (transaction : CommittedTransaction)
    (sent : List Sent) (cut : Bool) (run : Published)
    → (meets 0).cut ≡ cut
    → Publishes (λ i. meets (suc i)) kafka sent run
    → Publishes meets kafka ((transaction, []) ∷ sent) (acknowledged cut transaction kafka run)
unfolding acknowledged
acknowledged-Publishes meets kafka transaction sent true run at p =
    halts meets kafka transaction [] sent (inr at)
acknowledged-Publishes meets kafka transaction sent false run at p = record {
  added = p.added;
  in_kafka = p.in_kafka;
  progress = acked transaction nothing (earlier p.progress);
}

produced-Publishes :
    (meets : ℕ → Meeting) (kafka : List Event) (transaction : CommittedTransaction) (event : Event)
    (events : List Event) (sent : List Sent) (met : Result (Unit {0}) × ℕ)
    (later : List Event → Published)
    → do_retry default "publish event to Kafka" (meets 0).produce ≡ met
    → ((kafka : List Event)
        → Publishes (λ i. meets (suc i)) kafka ((transaction, events) ∷ sent) (later kafka))
    → Publishes meets kafka
        ((transaction, event ∷ events) ∷ sent)
        (produced (meets 0) event kafka met later)
unfolding produced
produced-Publishes meets kafka transaction event events sent (ok _, calls) later at rest =
    let p = rest (kafka ++ (copies (meets 0).stored (calls - 1) event ++ event ∷ [])) in
    record {
      added = (copies (meets 0).stored (calls - 1) event ++ event ∷ []) ++ p.added;
      in_kafka =
          p.in_kafka
          ∙ append_assoc kafka (copies (meets 0).stored (calls - 1) event ++ event ∷ []) p.added;
      progress = more (meets 0).stored (calls - 1) event (earlier p.progress);
    }
produced-Publishes meets kafka transaction event events sent (err e, calls) later at rest = record {
  added = copies (meets 0).stored calls event;
  in_kafka = refl;
  progress = stopped transaction event events 0 calls e nothing at;
}

transaction_published :
    (meets : ℕ → Meeting) (transaction : CommittedTransaction) (events : List Event)
    (sent : List Sent)
    → ((meets : ℕ → Meeting) (kafka : List Event)
        → Publishes meets kafka sent (publish_transactions meets (works_of sent) kafka))
    → (kafka : List Event)
    → Publishes meets kafka ((transaction, events) ∷ sent) (
        publish_transactions meets
          (map event_work events ++ end_work transaction ∷ works_of sent)
          kafka)
unfolding publish_transactions
transaction_published meets transaction [] sent rest kafka =
    unless_ended-Publishes meets kafka transaction [] sent (meets 0).ended _ refl (
      acknowledged-Publishes meets kafka transaction sent (meets 0).cut _ refl
        (rest (λ i. meets (suc i)) kafka))
transaction_published meets transaction (event ∷ events) sent rest kafka =
    unless_ended-Publishes meets kafka transaction (event ∷ events) sent (meets 0).ended _ refl (
      produced-Publishes meets kafka transaction event events sent _ _ refl
        (transaction_published (λ i. meets (suc i)) transaction events sent rest))

pub publish_transactions-Publishes :
    (meets : ℕ → Meeting) (sent : List Sent) (kafka : List Event)
    → Publishes meets kafka sent (publish_transactions meets (works_of sent) kafka)
unfolding publish_transactions
publish_transactions-Publishes meets [] kafka = record {
  added = [];
  in_kafka = sym (append-nil kafka);
  progress = all_done;
}
publish_transactions-Publishes meets ((transaction, events) ∷ sent) kafka =
    transaction_published meets transaction events sent
      (λ meets. publish_transactions-Publishes meets sent) kafka

-- When the reader has taken in the publisher's results for some transactions, its position is the
-- one from before, or the end of one of these transactions, all of whose events Kafka holds,
-- and the events of the transactions before it: each in its place, once or several times in a row.
pub published-IsConfirmed :
    (meets : ℕ → Meeting) (sent : List Sent) (kafka : List Event) (r : Reader)
    → let run = publish_transactions meets (works_of sent) kafka in
      (added : List Event) × (run.0 ≡ kafka ++ added)
      × IsConfirmed sent added r.durable_lsn (drain_publication_results false run.1 r).1.durable_lsn
published-IsConfirmed meets sent kafka r =
    let p = publish_transactions-Publishes meets sent kafka in
    (p.added, p.in_kafka, drain-IsConfirmed p.progress false r)
