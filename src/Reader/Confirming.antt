-- ===== src/Reader/Confirming.antt =====
-- The position of the reader after the publisher's results (cmd/source-reader/main.go), against what
-- Kafka holds.
use pg_live_sync.Prelude.{
  ◌≡◌, refl, sym, ap, ◌∙◌, ℕ, suc, ltb, Bool, true, false, ◌⊎◌, inl, inr, List, [], ◌∷◌, ◌++◌,
}
use mathlib.Core.List.{append-nil, append_assoc}
use pg_live_sync.Errclass.{Error}
use pg_live_sync.Action.{◌>>◌}
use pg_live_sync.Cdc.{Event}
use pg_live_sync.Source.Messages.{CommittedTransaction}
use pg_live_sync.Reader.{
  Reader, acknowledge, PublicationResult, failed, Meeting, sent_back, apply_publication_result,
  drain_publication_results,
}
use pg_live_sync.Reader.Producing.{
  Sent, all_events, Repeats, nothing, Progress, all_done, acked, halted, stopped, Repeats-append,
}

-- A position is the end of a transaction that Kafka holds whole, with all those before it.
pub record Confirmed (sent : List Sent) (added : List Event) (lsn : ℕ) : Type 0 where
  pub before : List Sent
  pub last : Sent
  pub after : List Sent
  pub beyond : List Event
  pub among : sent ≡ before ++ last ∷ after
  pub ends : last.0.end_lsn ≡ lsn
  pub held : List Event
  pub repeats : Repeats (all_events (before ++ last ∷ [])) held
  pub whole : added ≡ held ++ beyond

-- The position afterwards is the one before, or it is confirmed.
abbrev pub IsConfirmed : List Sent → List Event → ℕ → ℕ → Type 0
IsConfirmed sent added lsn lsn' = (lsn' ≡ lsn) ⊎ Confirmed sent added lsn'

extends :
    (transaction : CommittedTransaction) (events held : List Event) (sent : List Sent)
    (added : List Event) (lsn lsn' : ℕ)
    → Repeats events held
    → IsConfirmed sent added transaction.end_lsn lsn'
    → IsConfirmed ((transaction, events) ∷ sent) (held ++ added) lsn lsn'
extends transaction events held sent added lsn lsn' r (inl same) = inr (record {
  before = [];
  last = (transaction, events);
  after = sent;
  beyond = added;
  among = refl;
  ends = sym same;
  held = held ++ [];
  repeats = Repeats-append r nothing;
  whole = ap (λ l. l ++ added) (sym (append-nil held));
})
extends transaction events held sent added lsn lsn' r (inr c) = inr (record {
  before = (transaction, events) ∷ c.before;
  last = c.last;
  after = c.after;
  beyond = c.beyond;
  among = ap (λ l. (transaction, events) ∷ l) c.among;
  ends = c.ends;
  held = held ++ c.held;
  repeats = Repeats-append r c.repeats;
  whole = ap (λ l. held ++ l) c.whole ∙ sym (append_assoc held c.held c.beyond);
})

drained :
    (transaction : CommittedTransaction) (events held : List Event) (sent : List Sent)
    (added : List Event) (results : List PublicationResult) (behind : Bool) (r : Reader)
    → Repeats events held
    → ((advanced : Bool) (s : Reader)
        → IsConfirmed sent added s.durable_lsn
            (drain_publication_results advanced results s).1.durable_lsn)
    → IsConfirmed
        ((transaction, events) ∷ sent)
        (held ++ added)
        r.durable_lsn
        ((acknowledge behind transaction >> drain_publication_results true results) r).1.durable_lsn
unfolding acknowledge
drained transaction events held sent added results true r repeats rest = inl refl
drained transaction events held sent added results false r repeats rest =
    extends transaction events held sent added r.durable_lsn _ repeats (
      rest true (record r {
        durable_lsn = transaction.end_lsn;
        transactions_acked = suc r.transactions_acked;
      }))

-- A failure that is taken in leaves the position.
stop_drained :
    (cut : Bool) (e : Error) (advanced : Bool) (r : Reader)
    → (drain_publication_results advanced (sent_back cut (failed e)) r).1.durable_lsn
      ≡ r.durable_lsn
unfolding sent_back drain_publication_results apply_publication_result
stop_drained true e advanced r = refl
stop_drained false e advanced r = refl

pub drain-IsConfirmed :
    {meets : ℕ → Meeting} {sent : List Sent} {added : List Event} {results : List PublicationResult}
    → Progress meets sent added results
    → (advanced : Bool) (r : Reader)
    → IsConfirmed sent added r.durable_lsn
        (drain_publication_results advanced results r).1.durable_lsn
unfolding drain_publication_results apply_publication_result
drain-IsConfirmed all_done advanced r = inl refl
drain-IsConfirmed (acked {sent} {events} {held} {added} {results} transaction repeats p) advanced
      r =
    drained transaction events held sent added results (ltb transaction.end_lsn r.durable_lsn) r
      repeats (drain-IsConfirmed p)
drain-IsConfirmed (halted transaction rest at repeats ends) advanced r = inl refl
drain-IsConfirmed {meets} (stopped transaction event rest at calls e repeats fails) advanced r =
    inl (stop_drained (meets at).cut e advanced r)
