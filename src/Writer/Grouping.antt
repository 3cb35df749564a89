-- ===== src/Writer/Grouping.antt =====
-- A whole source transaction as `handleEvent` (cmd/destination-writer/main.go) receives it.
use pg_live_sync.Prelude.{
  ◌≡◌, refl, sym, ℕ, suc, ◌+◌, ◌<◌, true, false, Option, none, some, List, [], ◌∷◌, ◌++◌, length,
  length-append, All, ◌≤◌, arith,
}
use mathlib.Core.List.{append-nil, append_assoc}
use pg_live_sync.Errclass.{Result, ok, err}
use pg_live_sync.Action.{continue, pure}
use pg_live_sync.Cdc.{Event}
use pg_live_sync.Destination.Database.{Database}
use pg_live_sync.Writer.{
  GroupState, Writer, Services, open_group, buffered, is_complete, events_of, begun, advance,
  finished, handle_event, consume,
}
use pg_live_sync.Writer.Ordering.{IsNumbered, events_of-buffered}

-- The group after some events have been buffered, from an offset on.
unfoldable pub received : ℕ → List Event → GroupState → GroupState
unfolding buffered
received offset [] g = g
received offset (event ∷ events) g = received (suc offset) events (buffered offset event g)

-- The group that the first event of a transaction opens.
abbrev pub new_group : ℕ → ℕ → ℕ → GroupState
new_group offset txid count = record {
  txid = txid;
  count = count;
  next_seq = 1;
  tx = true;
  last_record = offset;
  buffer = [];
}

-- The group before a transaction's last event.
abbrev pub waiting : ℕ → ℕ → ℕ → List Event → Option GroupState
waiting offset txid count [] = none
waiting offset txid count (event ∷ events) =
    some (received offset (event ∷ events) (new_group offset txid count))

-- All the events of a source transaction, in order, each with the transaction's size.
abbrev pub IsTransaction : ℕ → ℕ → List Event → Type 0
IsTransaction txid count events =
    IsNumbered txid 1 events
    × All (λ (e : Event). e.source.transaction_event_count ≡ count) events
    × (length events ≡ count)

opens :
    (offset : ℕ) (event : Event) (txid count : ℕ)
    → event.source.transaction_id ≡ txid
    → event.source.sequence ≡ 1
    → event.source.transaction_event_count ≡ count
    → open_group offset event none ≡ ok (new_group offset txid count)
unfolding open_group
opens offset event txid count t q c = rw (t, q, c) refl

accepts :
    (offset : ℕ) (event : Event) (g : GroupState)
    → event.source.transaction_id ≡ g.txid
    → event.source.sequence ≡ g.next_seq
    → open_group offset event (some g) ≡ ok g
unfolding open_group
accepts offset event g t q = ground arith

pub events_of-received :
    (offset : ℕ) (events : List Event) (g : GroupState)
    → events_of (received offset events g) ≡ events_of g ++ events
unfolding received
events_of-received offset [] g = sym (append-nil (events_of g))
events_of-received offset (event ∷ events) g =
    rw
      (
        events_of-received (suc offset) events (buffered offset event g),
        events_of-buffered offset event g,
      )
      (append_assoc (events_of g) (event ∷ []) events)

completes :
    (offset : ℕ) (event : Event) (g : GroupState)
    → g.next_seq ≡ g.count
    → is_complete (buffered offset event g) ≡ true
unfolding is_complete buffered
completes offset event g n = ground arith

misses :
    (offset : ℕ) (event : Event) (g : GroupState)
    → g.next_seq < g.count
    → is_complete (buffered offset event g) ≡ false
unfolding is_complete buffered
misses offset event g n = ground arith

module _ (D : Database) (services : Services D) where
  advance_complete :
      (g : GroupState) (s : Writer D)
      → is_complete g ≡ true
      → advance D services g s ≡ finished D services g s
  unfolding advance
  advance_complete g s h = rw h refl

  advance_incomplete :
      (g : GroupState) (s : Writer D)
      → is_complete g ≡ false
      → advance D services g s ≡ (ok tt, record s { group = some g })
  unfolding advance
  advance_incomplete g s h = rw h refl

  starts :
      (offset : ℕ) (event : Event) (txid count : ℕ) (s : Writer D)
      → event.source.transaction_id ≡ txid
      → event.source.sequence ≡ 1
      → event.source.transaction_event_count ≡ count
      → D.begin_tx s.world.db ≡ ok tt
      → handle_event D services offset event (record s { group = none })
        ≡ advance D services
            (buffered offset event (new_group offset txid count))
            (record s { group = none })
  unfolding handle_event begun
  starts offset event txid count s t q c b = rw (opens offset event txid count t q c, b) refl

  continues :
      (offset : ℕ) (event : Event) (g : GroupState) (s : Writer D)
      → event.source.transaction_id ≡ g.txid
      → event.source.sequence ≡ g.next_seq
      → handle_event D services offset event (record s { group = some g })
        ≡ advance D services (buffered offset event g) (record s { group = some g })
  unfolding handle_event begun
  continues offset event g s t q = rw (accepts offset event g t q) refl

  continue-pure : (r : Result (Unit {0})) (s : Writer D) → continue r (λ _. pure tt) s ≡ (r, s)
  continue-pure (ok tt) s = refl
  continue-pure (err e) s = refl

  consume_rest :
      (offset : ℕ) (events : List Event) (final : Event) (g : GroupState) (s : Writer D)
      → IsNumbered g.txid g.next_seq (events ++ final ∷ [])
      → g.next_seq + length events ≡ g.count
      → 1 ≤ g.next_seq
      → consume D services offset (events ++ final ∷ []) (record s { group = some g })
        ≡ finished D services
            (received offset (events ++ final ∷ []) g)
            (record s { group = some (received offset events g) })
  unfolding consume received
  consume_rest offset [] final g s (t, q, h) n p =
      rw
        (
          continues offset final g s t q,
          advance_complete (buffered offset final g) (record s { group = some g })
              (completes offset final g (omega (arith, n, p))),
        )
        (continue-pure _ _)
  consume_rest offset (event ∷ events) final g s (t, q, h) n p =
      rw
        (
          continues offset event g s t q,
          advance_incomplete (buffered offset event g) (record s { group = some g })
              (misses offset event g (omega (arith, n, p))),
        )
        (consume_rest (suc offset) events final (buffered offset event g) s h (omega (arith, n))
          (omega (arith, p)))

  -- When the events of a source transaction arrive one after the other and no group is open, all but
  -- the last are only buffered: nothing is written until the last one, where the whole transaction
  -- is applied as one group and then the offset of its last record is committed.
  pub consume_transaction :
      (offset txid count : ℕ) (events : List Event) (final : Event) (s : Writer D)
      → D.begin_tx s.world.db ≡ ok tt
      → IsTransaction txid count (events ++ final ∷ [])
      → consume D services offset (events ++ final ∷ []) (record s { group = none })
        ≡ finished D services
            (received offset (events ++ final ∷ []) (new_group offset txid count))
            (record s { group = waiting offset txid count events })
  unfolding consume received
  consume_transaction offset txid count [] final s b ((t, q, h), (c, _), n) =
      rw
        (
          starts offset final txid count s t q c b,
          advance_complete (buffered offset final (new_group offset txid count))
              (record s { group = none }) (completes offset final (new_group offset txid count) n),
        )
        (continue-pure _ _)
  consume_transaction offset txid count (event ∷ events) final s b ((t, q, h), (c, _), n) =
      rw
        (
          starts offset event txid count s t q c b,
          advance_incomplete (buffered offset event (new_group offset txid count))
              (record s { group = none })
              (misses offset event (new_group offset txid count)
                (omega (arith, n, length-append events (final ∷ [])))),
        )
        (consume_rest (suc offset) events final
          (buffered offset event (new_group offset txid count)) s h
          (omega (arith, n, length-append events (final ∷ []))) (omega arith))
