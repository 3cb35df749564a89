-- ===== src/Scenarios/Applying.antt =====
-- Runs of internal/destination on the sample destination.
use pg_live_sync.Prelude.{
  ◌≡◌, refl, String, true, false, Option, none, some, List, [], ◌∷◌, All, length, concat,
}
use pg_live_sync.Errclass.{transport, wrapf, ok, err}
use pg_live_sync.Cdc.{Event}
use pg_live_sync.Destination.Sql.{Types, quote_ident}
use pg_live_sync.Destination.Database.{Database}
use pg_live_sync.Destination.Columns.{World, table_columns}
use pg_live_sync.Destination.Columns.Caching.{table_columns_after_failure}
use pg_live_sync.Destination.Rows.{text, lsn, time}
use pg_live_sync.Destination.Apply.{apply}
use pg_live_sync.Destination.Upserts.{LsnParser, Upsert}
use pg_live_sync.Destination.Apply.Once.{apply_twice}
use pg_live_sync.Destination.Batch.{apply_batch}
use pg_live_sync.Destination.Batch.Replays.{apply_batch_twice, apply_batch-AreMarked, AreMarked}
use pg_live_sync.Destination.Batch.InOrder.Delays.{KeepsCatalog}
use pg_live_sync.Destination.Batch.InOrder.Agrees.{AppliesInOrder, apply_batch-AppliesInOrder}
use pg_live_sync.Scenarios.{sample_database, sample-Laws, sample_world, first_event, second_event}

abbrev pub sample_parser : LsnParser
sample_parser shown = some 16

abbrev pub both : List Event
both = first_event ∷ second_event ∷ []

apply_batch_ok : (apply_batch sample_database sample_parser both sample_world).0 ≡ ok tt
unfolding apply_batch pg_live_sync.Cdc.validate pg_live_sync.Destination.Upserts.check_idents
    pg_live_sync.Destination.Rows.verify_ident pg_live_sync.Prelude.contains_string
    pg_live_sync.Destination.Rows.verify_columns table_columns pg_live_sync.Prelude.lookup
    pg_live_sync.Destination.Rows.transcode_row pg_live_sync.Destination.Upserts.keys_present
    pg_live_sync.Prelude.sort_strings pg_live_sync.Prelude.insert_sorted
    pg_live_sync.Prelude.str_leb pg_live_sync.Destination.Upserts.keys_changed
    pg_live_sync.Prelude.insert pg_live_sync.Destination.Sql.qualified concat
apply_batch_ok = refl

apply_batch_again :
    (apply_batch sample_database sample_parser both
      (apply_batch sample_database sample_parser both sample_world).1).0
    ≡ ok tt
unfolding apply_batch pg_live_sync.Cdc.validate pg_live_sync.Destination.Upserts.check_idents
    pg_live_sync.Destination.Rows.verify_ident pg_live_sync.Prelude.contains_string
    pg_live_sync.Destination.Rows.verify_columns table_columns pg_live_sync.Prelude.lookup
    pg_live_sync.Destination.Rows.transcode_row pg_live_sync.Destination.Upserts.keys_present
    pg_live_sync.Prelude.sort_strings pg_live_sync.Prelude.insert_sorted
    pg_live_sync.Prelude.str_leb pg_live_sync.Destination.Upserts.keys_changed
    pg_live_sync.Prelude.insert pg_live_sync.Destination.Sql.qualified concat
apply_batch_again = refl

apply_batch_twice_example :
    (apply_batch sample_database sample_parser both
      (apply_batch sample_database sample_parser both sample_world).1).1
    ≡ (apply_batch sample_database sample_parser both sample_world).1
apply_batch_twice_example =
    apply_batch_twice sample-Laws sample_parser both sample_world apply_batch_ok apply_batch_again

sample-KeepsCatalog : KeepsCatalog sample_database
sample-KeepsCatalog = record { kept = λ statement parameters db name change executes. refl }

apply_batch-AppliesInOrder_example :
    AppliesInOrder sample_database sample_parser both sample_world
      (apply_batch sample_database sample_parser both sample_world).1
apply_batch-AppliesInOrder_example =
    apply_batch-AppliesInOrder sample_database sample_parser sample-KeepsCatalog first_event
      (second_event ∷ []) sample_world
      (λ i. (apply_batch_ok i, (apply_batch sample_database sample_parser both sample_world).1))

apply_batch-AreMarked_example :
    AreMarked sample_database both (apply_batch sample_database sample_parser both sample_world).1
apply_batch-AreMarked_example =
    apply_batch-AreMarked sample-Laws sample_parser both sample_world apply_batch_ok

apply_ok : (apply sample_database sample_parser first_event sample_world).0 ≡ ok true
unfolding apply pg_live_sync.Cdc.validate pg_live_sync.Destination.Rows.verify_ident
    pg_live_sync.Prelude.contains_string pg_live_sync.Destination.Rows.verify_columns table_columns
    pg_live_sync.Prelude.lookup pg_live_sync.Destination.Rows.transcode_row
    pg_live_sync.Destination.Upserts.keys_present pg_live_sync.Prelude.sort_strings
    pg_live_sync.Prelude.insert_sorted pg_live_sync.Prelude.str_leb
    pg_live_sync.Destination.Upserts.keys_changed
apply_ok = refl

apply_again :
    (apply sample_database sample_parser first_event
      (apply sample_database sample_parser first_event sample_world).1).0
    ≡ ok false
unfolding apply pg_live_sync.Cdc.validate pg_live_sync.Destination.Rows.verify_ident
    pg_live_sync.Prelude.contains_string pg_live_sync.Destination.Rows.verify_columns table_columns
    pg_live_sync.Prelude.lookup pg_live_sync.Destination.Rows.transcode_row
    pg_live_sync.Destination.Upserts.keys_present pg_live_sync.Prelude.sort_strings
    pg_live_sync.Prelude.insert_sorted pg_live_sync.Prelude.str_leb
    pg_live_sync.Destination.Upserts.keys_changed
apply_again = refl

apply_twice_example :
    (false ≡ false)
    × ((apply sample_database sample_parser first_event
          (apply sample_database sample_parser first_event sample_world).1).1
        ≡ (apply sample_database sample_parser first_event sample_world).1)
apply_twice_example =
    apply_twice sample-Laws sample_parser first_event sample_world apply_ok apply_again

-- Its key column is not in the row.
abbrev pub keyless_event : Event
keyless_event = record first_event { after = ("name", some "Ada") ∷ [] }

-- The catalog cannot be read.
abbrev blind_database : Database
blind_database = record sample_database { catalog = λ table db. err (transport "unavailable") }

abbrev blind_world : World blind_database
blind_world = record { db = sample_world.db; columns_seen_at = []; columns_by_table = []; now = 5 }

table_columns_after_failure_example :
    ((table_columns blind_database "public" "users" blind_world).0
      ≡ err (
          wrapf "list columns of destination %s: %w"
            ("\"public\".\"users\"" ∷ [])
            (transport "unavailable")))
    × ((table_columns blind_database "public" "users"
          (table_columns blind_database "public" "users" blind_world).1).0
        ≡ ok [])
unfolding table_columns pg_live_sync.Prelude.lookup pg_live_sync.Destination.Sql.qualified concat
table_columns_after_failure_example =
    table_columns_after_failure blind_database "public" "users" blind_world
      (transport "unavailable") refl refl

users_quoted : quote_ident "users" ≡ "\"users\""
unfolding quote_ident concat
users_quoted = refl

abbrev sample_upsert : Upsert
sample_upsert = record {
  columns = "id" ∷ "name" ∷ [];
  key_columns = "id" ∷ [];
  parameters = text (some "7") ∷ text (some "Ada") ∷ lsn "0/10" ∷ time 1000 ∷ [];
  key_values = text (some "7") ∷ [];
}
