-- ===== src/Pipeline.antt =====
-- The two processes in a row: the events that internal/source/decoder.go gives for a source transaction
-- are what cmd/destination-writer/main.go takes for one.
use pg_live_sync.Prelude.{
  ℕ, suc, ◌+◌, ◌≡◌, refl, sym, ap, ◌∙◌, true, String, none, some, List, [], ◌∷◌, ◌++◌, All, length,
  arith,
}
use pg_live_sync.Errclass.{ok}
use pg_live_sync.Cdc.{Event}
use pg_live_sync.Source.Messages.{CommittedTransaction, Decoder, PendingChange}
use pg_live_sync.Source.Spool.{Codec, Host, event_of}
use pg_live_sync.Source.Spool.Pulling.Lines.{Encodes}
use pg_live_sync.Source.Spool.Pulling.Draining.{events_of}
use pg_live_sync.Source.Handle.Roundtrip.{committed, transaction_events, transaction_events_lem}
use pg_live_sync.Destination.Database.{Database}
use pg_live_sync.Writer.{finished, Writer, Services, consume}
use pg_live_sync.Writer.Ordering.{IsNumbered}
use pg_live_sync.Writer.Grouping.{received, new_group, waiting, IsTransaction, consume_transaction}

module _ (lsn_text : ℕ → String) (commit : CommittedTransaction) where
  events_of-IsNumbered :
      (seq : ℕ) (changes : List PendingChange)
      → IsNumbered commit.transaction_id (suc seq) (events_of lsn_text commit seq changes)
  unfolding events_of event_of
  events_of-IsNumbered seq [] = tt
  events_of-IsNumbered seq (change ∷ changes) = (refl, refl, events_of-IsNumbered (suc seq) changes)

  events_of-counted :
      (seq : ℕ) (changes : List PendingChange)
      → All
          (λ (e : Event). e.source.transaction_event_count ≡ commit.count)
          (events_of lsn_text commit seq changes)
  unfolding events_of event_of
  events_of-counted seq [] = tt
  events_of-counted seq (change ∷ changes) = (refl, events_of-counted (suc seq) changes)

  length-events_of :
      (seq : ℕ) (changes : List PendingChange)
      → length (events_of lsn_text commit seq changes) ≡ length changes
  unfolding events_of
  length-events_of seq [] = refl
  length-events_of seq (change ∷ changes) = ap (λ n. suc n) (length-events_of (suc seq) changes)

  -- The events of a transaction with that many changes are a whole transaction to the writer.
  pub events_of-IsTransaction :
      (changes : List PendingChange)
      → commit.count ≡ length changes
      → IsTransaction commit.transaction_id commit.count (events_of lsn_text commit 0 changes)
  events_of-IsTransaction changes counted = (
    events_of-IsNumbered 0 changes,
    events_of-counted 0 changes,
    length-events_of 0 changes ∙ sym counted,
  )

  events_of-append :
      (seq : ℕ) (changes : List PendingChange) (final : PendingChange)
      → events_of lsn_text commit seq (changes ++ final ∷ [])
        ≡ events_of lsn_text commit seq changes
          ++ event_of lsn_text commit (suc (seq + length changes)) final ∷ []
  unfolding events_of
  events_of-append seq [] final =
      ap (λ n. event_of lsn_text commit (suc n) final ∷ []) (omega arith)
  events_of-append seq (change ∷ changes) final =
      ap (λ events. event_of lsn_text commit (suc seq) change ∷ events)
        (events_of-append (suc seq) changes final
          ∙ ap
              (λ n.
                events_of lsn_text commit (suc seq) changes
                ++ event_of lsn_text commit (suc n) final ∷ [])
              (omega arith))

module _ (codec : Codec) (lsn_text : ℕ → String) (host : Host) {path : String}
    (named : host.temp_name ≡ some path) (writes : host.write_ok ≡ true)
    (seeks : host.seek_ok ≡ true) (reads : host.read_ok ≡ true) (D : Database)
    (services : Services D) where
  taken_whole :
      (commit : CommittedTransaction) (offset : ℕ) (front : List PendingChange)
      (final : PendingChange) (s : Writer D)
      → commit.count ≡ length (front ++ final ∷ [])
      → D.begin_tx s.world.db ≡ ok tt
      → consume D services offset
          (events_of lsn_text commit 0 (front ++ final ∷ []))
          (record s { group = none })
        ≡ finished D services
            (received offset
              (events_of lsn_text commit 0 (front ++ final ∷ []))
              (new_group offset commit.transaction_id commit.count))
            (record s {
              group =
                  waiting offset commit.transaction_id commit.count
                    (events_of lsn_text commit 0 front);
            })
  taken_whole commit offset front final s counted begins =
      let whole = events_of-IsTransaction lsn_text commit (front ++ final ∷ []) counted in
      rw (events_of-append lsn_text commit 0 front final) (
        consume_transaction D services offset commit.transaction_id commit.count
          (events_of lsn_text commit 0 front)
          (event_of lsn_text commit (suc (0 + length front)) final) s begins
          (rw (events_of-append lsn_text commit 0 front final) at whole))

  -- From the source's begin message to the destination: the events that the decoder gives for a source
  -- transaction with at least one change, delivered in order to a writer without an open group,
  -- are taken as one group with all of them, which is closed at the last one and not before;
  -- this where the changes can be encoded, the file system works and a transaction can begin.
  pub transaction_taken_whole :
      (d : Decoder) (xid commit_lsn end_lsn commit_time : ℕ) (front : List PendingChange)
      (final : PendingChange) (offset : ℕ) (s : Writer D)
      → d.transaction ≡ none
      → All (Encodes codec) (front ++ final ∷ [])
      → D.begin_tx s.world.db ≡ ok tt
      → (events : List Event) × ((transaction_events codec lsn_text host xid
            (front ++ final ∷ [])
            commit_lsn
            end_lsn
            commit_time
            d).0
          ≡ ok events)
        × (length events ≡ length (front ++ final ∷ []))
        × (consume D services offset events (record s { group = none })
            ≡ finished D services
                (received offset events (new_group offset xid (length events)))
                (record s {
                  group = waiting offset xid (length events) (
                      events_of lsn_text
                        (committed xid commit_lsn end_lsn commit_time (front ++ final ∷ []))
                        0
                        front);
                }))
  transaction_taken_whole d xid commit_lsn end_lsn commit_time front final offset s idle encodes
        begins =
      let commit = committed xid commit_lsn end_lsn commit_time (front ++ final ∷ []) in
      let counted = length-events_of lsn_text commit 0 (front ++ final ∷ []) in
      (
        events_of lsn_text commit 0 (front ++ final ∷ []),
        transaction_events_lem codec lsn_text host named writes seeks reads d xid commit_lsn end_lsn
            commit_time (front ++ final ∷ []) idle encodes,
        counted,
        rw counted (taken_whole commit offset front final s refl begins),
      )
