-- ===== src/Scenarios/Piping.antt =====
-- A source transaction on its way through both processes.
use pg_live_sync.Prelude.{◌≡◌, refl, List, [], ◌∷◌, ◌++◌, length, none}
use pg_live_sync.Errclass.{ok}
use pg_live_sync.Cdc.{Event}
use pg_live_sync.Source.Messages.{PendingChange}
use pg_live_sync.Source.Spool.Pulling.Draining.{events_of}
use pg_live_sync.Source.Handle.Roundtrip.{committed, transaction_events}
use pg_live_sync.Writer.{finished, consume}
use pg_live_sync.Writer.Grouping.{received, new_group, waiting}
use pg_live_sync.Pipeline.{transaction_taken_whole}
use pg_live_sync.Scenarios.{sample_database}
use pg_live_sync.Scenarios.Decoding.{
  sample_change, sample-Encodes, sample_codec, sample_host, sample_lsn_text, small_decoder,
}
use pg_live_sync.Scenarios.Writing.{sample_services, idle_writer}

abbrev two_of_three : List PendingChange
two_of_three = sample_change ∷ sample_change ∷ []

transaction_taken_whole_example :
    (events : List Event) × ((transaction_events sample_codec sample_lsn_text sample_host 42
        (two_of_three ++ sample_change ∷ [])
        16
        32
        1000
        small_decoder).0
      ≡ ok events)
    × (length events ≡ length (two_of_three ++ sample_change ∷ []))
    × (consume sample_database sample_services 7 events (record idle_writer { group = none })
        ≡ finished sample_database sample_services
            (received 7 events (new_group 7 42 (length events)))
            (record idle_writer {
              group = waiting 7 42 (length events) (
                  events_of sample_lsn_text
                    (committed 42 16 32 1000 (two_of_three ++ sample_change ∷ []))
                    0
                    two_of_three);
            }))
transaction_taken_whole_example =
    transaction_taken_whole sample_codec sample_lsn_text sample_host refl refl refl refl
      sample_database sample_services small_decoder 42 16 32 1000 two_of_three sample_change 7
      idle_writer refl (sample-Encodes, (sample-Encodes, (sample-Encodes, tt))) refl
