-- ===== src/Writer/Ordering.antt =====
-- The ordering checks of `handleEvent` (cmd/destination-writer/main.go).
use pg_live_sync.Prelude.{
  ◌≡◌, ◌⊎◌, inl, inr, refl, ℕ, suc, ◌+◌, Bool, true, false, Option, none, some, List, [], ◌∷◌, ◌++◌,
  length, length-append, if◌then◌else◌, arith,
}
use mathlib.Core.List.{map-append}
use pg_live_sync.Errclass.{Result, ok, err}
use pg_live_sync.Action.{continue, lift, ◌>>◌, modify}
use pg_live_sync.Cdc.{Event}
use pg_live_sync.Destination.Database.{Database}
use pg_live_sync.Writer.{
  BufferedEvent, GroupState, Writer, Services, events_of, open_group, buffered, is_complete,
  advance, close_group, finished, left_open, handle_event,
}

-- Events of one source transaction, whose sequence numbers count up from a first one.
abbrev pub IsNumbered : ℕ → ℕ → List Event → Type 0
IsNumbered txid first [] = Unit
IsNumbered txid first (event ∷ events) =
    (event.source.transaction_id ≡ txid)
    × (event.source.sequence ≡ first)
    × IsNumbered txid (suc first) events

pub IsNumbered-append :
    (txid first : ℕ) (events : List Event) (event : Event)
    → IsNumbered txid first events
    → event.source.transaction_id ≡ txid
    → event.source.sequence ≡ first + length events
    → IsNumbered txid first (events ++ event ∷ [])
IsNumbered-append txid first [] event h t n = (t, omega (arith, n), tt)
IsNumbered-append txid first (e ∷ events) event (a, b, h) t n =
    (a, b, IsNumbered-append txid (suc first) events event h t (omega (arith, n)))

-- What has arrived of a transaction, with the transaction on the destination still open.
unfoldable pub IsRunning : GroupState → Type 0
IsRunning g =
    (g.next_seq ≡ suc (length (events_of g))) × IsNumbered g.txid 1 (events_of g) × (g.tx ≡ true)

-- No group, or one that still misses an event.
unfoldable pub IsOpen : Option GroupState → Type 0
IsOpen none = Unit
IsOpen (some g) = IsRunning g × (is_complete g ≡ false)

-- All events are there, and the transaction on the destination has ended.
unfoldable pub IsSpent : Option GroupState → Type 0
IsSpent none = ⊥
IsSpent (some g) =
    (g.next_seq ≡ suc (length (events_of g)))
    × IsNumbered g.txid 1 (events_of g)
    × (is_complete g ≡ true)
    × (g.tx ≡ false)

-- The group before an event and after it, with the outcome of its handling.
unfoldable pub HandledAs : Result (Unit {0}) → Option GroupState → Option GroupState → Type 0
HandledAs (ok _) before after = IsOpen after
HandledAs (err e) before after = (after ≡ before) ⊎ IsSpent after

unfoldable pub Handled : {D : Database} → Option GroupState → Result (Unit {0}) × Writer D → Type 0
Handled before (r, s) = HandledAs r before s.group

-- The group that an accepted event joins.
Joins : Event → GroupState → Type 0
Joins event g =
    IsRunning g × (event.source.transaction_id ≡ g.txid) × (event.source.sequence ≡ g.next_seq)

open_group-Joins :
    (offset : ℕ) (event : Event) (group : Option GroupState) {g : GroupState}
    → IsOpen group
    → open_group offset event group ≡ ok g
    → Joins event g
unfolding open_group Joins IsOpen IsRunning
open_group-Joins offset event none {g} h at = ground arith
open_group-Joins offset event (some current) {g} h at = ground arith

pub events_of-buffered :
    (offset : ℕ) (event : Event) (g : GroupState)
    → events_of (buffered offset event g) ≡ events_of g ++ event ∷ []
unfolding buffered
events_of-buffered offset event g = map-append (λ (b : BufferedEvent). b.event) g.buffer _

buffered-IsRunning :
    (offset : ℕ) (event : Event) (g : GroupState)
    → Joins event g
    → IsRunning (buffered offset event g)
unfolding Joins IsRunning buffered
buffered-IsRunning offset event g ((n, h, x), t, q) = (
  grind (arith, events_of-buffered offset event g, length-append (events_of g) (event ∷ [])),
  rw (events_of-buffered offset event g)
      (IsNumbered-append g.txid 1 (events_of g) event h t (omega (arith, n, q))),
  x,
)

module _ (D : Database) (services : Services D) where
  closed :
      (g : GroupState) (r : Result (Unit {0})) (before : Option GroupState)
      → IsRunning g
      → is_complete g ≡ true
      → HandledAs r before (left_open D services g r before)
  unfolding HandledAs IsOpen IsRunning IsSpent left_open is_complete
  closed g (ok _) before h full = tt
  closed g (err e) none h full = inl refl
  closed g (err e) (some current) (n, numbered, running) full = inr (n, numbered, full, refl)

  chosen :
      (g : GroupState) (complete : Bool) (s : Writer D)
      → is_complete g ≡ complete
      → IsRunning g
      → Handled s.group (
          (if complete
              then finished D services g
              else modify (λ (s : Writer D). record s { group = some g }))
            s)
  unfolding Handled HandledAs IsOpen finished
  chosen g true s at running = closed g (close_group D services g s).0 s.group running at
  chosen g false s at running = (running, at)

  advance-Handled :
      (g : GroupState) (s : Writer D) → IsRunning g → Handled s.group (advance D services g s)
  unfolding advance
  advance-Handled g s running = chosen g (is_complete g) s refl running

  opened :
      (offset : ℕ) (event : Event) (r : Result GroupState) (b : Result (Unit {0})) (s : Writer D)
      → ((g : GroupState) → r ≡ ok g → Joins event g)
      → Handled s.group (continue r (λ g. lift b >> advance D services (buffered offset event g)) s)
  unfolding Handled HandledAs
  opened offset event (err e) b s joins = inl refl
  opened offset event (ok g) (err e) s joins = inl refl
  opened offset event (ok g) (ok _) s joins =
      advance-Handled _ s (buffered-IsRunning offset event g (joins g refl))

  -- If the writer has no group open, or one that still misses an event (its buffer holds events of
  -- one source transaction with the sequence numbers 1, 2, ... without a gap, the next one
  -- expected, and its transaction is open), this also holds after an event that is handled without
  -- an error. After an error, the group is as before, or it holds a whole source transaction, numbered
  -- in the same way, whose transaction on the destination has ended.
  pub handle_event-IsOpen :
      (offset : ℕ) (event : Event) (s : Writer D)
      → IsOpen s.group
      → Handled s.group (handle_event D services offset event s)
  unfolding handle_event
  handle_event-IsOpen offset event s h =
      opened offset event (open_group offset event s.group) _ s
        (λ g at. open_group-Joins offset event s.group h at)
