-- ===== src/Reader/Producing.antt =====
-- What `publishTransactions` (cmd/source-reader/main.go) makes of the transactions that it is given:
-- the events that come to Kafka, and the results.
use pg_live_sync.Prelude.{
  ◌≡◌, sym, ◌∙◌, ℕ, zero, suc, Bool, true, Bool-cases, ◌⊎◌, inl, inr, List, [], ◌∷◌, ◌++◌, map,
}
use mathlib.Core.Path.{subst}
use mathlib.Core.List.{append_assoc}
use pg_live_sync.Errclass.{Error, err}
use pg_live_sync.Retry.{default, do_retry}
use pg_live_sync.Cdc.{Event}
use pg_live_sync.Source.Messages.{CommittedTransaction}
use pg_live_sync.Reader.{
  PublicationResult, PublishWork, published, failed, event_work, end_work, Meeting, copies,
  sent_back,
}

-- A transaction with its events.
abbrev pub Sent : Type 0
Sent = CommittedTransaction × List Event

-- What the reader hands over for some transactions.
abbrev pub works_of : List Sent → List PublishWork
works_of [] = []
works_of ((transaction, events) ∷ sent) =
    map event_work events ++ end_work transaction ∷ works_of sent

abbrev pub all_events : List Sent → List Event
all_events [] = []
all_events ((transaction, events) ∷ sent) = events ++ all_events sent

-- The events in order, each at least once: a copy that a failed try has left comes directly before.
pub data Repeats : List Event → List Event → Type 0 where
  nothing : Repeats [] []
  produced_once :
      {events held : List Event} (event : Event)
      → Repeats events held
      → Repeats (event ∷ events) (event ∷ held)
  produced_again :
      {events held : List Event} (event : Event)
      → Repeats (event ∷ events) held
      → Repeats (event ∷ events) (event ∷ held)

pub Repeats-append :
    {events held events' held' : List Event}
    → Repeats events held
    → Repeats events' held'
    → Repeats (events ++ events') (held ++ held')
Repeats-append nothing r = r
Repeats-append (produced_once event p) r = produced_once event (Repeats-append p r)
Repeats-append (produced_again event p) r = produced_again event (Repeats-append p r)

Repeats-copies :
    (stored : ℕ → Bool) (n : ℕ) (event : Event) {events held : List Event}
    → Repeats events held
    → Repeats (event ∷ events) (copies stored n event ++ event ∷ held)
unfolding copies
Repeats-copies stored zero event p = produced_once event p
Repeats-copies stored (suc n) event p = elim (Bool-cases (stored (suc n))) [
  | inl left ↦ rw left (produced_again event (Repeats-copies stored n event p))
  | inr gone ↦ rw gone (Repeats-copies stored n event p)
]

-- What the publisher adds to Kafka for some transactions, and the results that it sends back. A
-- transaction is acknowledged after its last event. The publisher stops early in two cases only: its
-- context ends, or an event fails in all its tries, which may leave copies of that event.
pub data Progress (meets : ℕ → Meeting)
    : List Sent → List Event → List PublicationResult → Type 0 where
  all_done : Progress meets [] [] []
  acked :
      {sent : List Sent} {events held added : List Event} {results : List PublicationResult}
      (transaction : CommittedTransaction)
      → Repeats events held
      → Progress meets sent added results
      → Progress meets
          ((transaction, events) ∷ sent)
          (held ++ added)
          (published transaction ∷ results)
  halted :
      {sent : List Sent} {front held : List Event} (transaction : CommittedTransaction)
      (rest : List Event) (at : ℕ)
      → Repeats front held
      → ((meets at).ended ≡ true) ⊎ ((meets at).cut ≡ true)
      → Progress meets ((transaction, front ++ rest) ∷ sent) held []
  stopped :
      {sent : List Sent} {front held : List Event} (transaction : CommittedTransaction)
      (event : Event) (rest : List Event) (at calls : ℕ) (e : Error)
      → Repeats front held
      → do_retry default "publish event to Kafka" (meets at).produce ≡ (err e, calls)
      → Progress meets
          ((transaction, front ++ event ∷ rest) ∷ sent)
          (held ++ copies (meets at).stored calls event)
          (sent_back (meets at).cut (failed e))

-- The same progress, counted from one piece of work earlier.
pub earlier :
    {meets : ℕ → Meeting} {sent : List Sent} {added : List Event} {results : List PublicationResult}
    → Progress (λ i. meets (suc i)) sent added results
    → Progress meets sent added results
earlier all_done = all_done
earlier (acked transaction r p) = acked transaction r (earlier p)
earlier (halted transaction rest at r ends) = halted transaction rest (suc at) r ends
earlier (stopped transaction event rest at calls e r fails) =
    stopped transaction event rest (suc at) calls e r fails

same_added :
    {meets : ℕ → Meeting} {sent : List Sent} {added added' : List Event}
    {results : List PublicationResult}
    → added ≡ added'
    → Progress meets sent added results
    → Progress meets sent added' results
same_added {meets} {sent} {added} {added'} {results} same p =
    subst (λ (l : List Event). Progress meets sent l results) same p

-- An event that is produced before the rest of its transaction.
pub more :
    {meets : ℕ → Meeting} {transaction : CommittedTransaction} {events : List Event}
    {sent : List Sent} {added : List Event} {results : List PublicationResult} (stored : ℕ → Bool)
    (n : ℕ) (event : Event)
    → Progress meets ((transaction, events) ∷ sent) added results
    → Progress meets
        ((transaction, event ∷ events) ∷ sent)
        ((copies stored n event ++ event ∷ []) ++ added)
        results
more stored n event (acked {sent} {events} {held} {added} {results} transaction r p) =
    same_added
      (append_assoc (copies stored n event) (event ∷ held) added
        ∙ sym (append_assoc (copies stored n event) (event ∷ []) (held ++ added)))
      (acked transaction (Repeats-copies stored n event r) p)
more {meets} stored n event (halted {sent} {front} {held} transaction rest at r ends) =
    same_added {meets = meets} {sent = (transaction, event ∷ (front ++ rest)) ∷ sent}
      (sym (append_assoc (copies stored n event) (event ∷ []) held))
      (halted {sent = sent} {front = event ∷ front} transaction rest at
        (Repeats-copies stored n event r) ends)
more {meets} stored n event
      (stopped {sent} {front} {held} transaction missed rest at calls e r fails) =
    same_added {meets = meets} {sent = (transaction, event ∷ (front ++ missed ∷ rest)) ∷ sent}
      (append_assoc (copies stored n event) (event ∷ held) (copies (meets at).stored calls missed)
        ∙ sym (
            append_assoc (copies stored n event) (event ∷ [])
              (held ++ copies (meets at).stored calls missed)))
      (stopped {sent = sent} {front = event ∷ front} transaction missed rest at calls e
        (Repeats-copies stored n event r) fails)
