-- ===== src/Scenarios/Settling.antt =====
-- A group with a poison event: the first event has a version that is not supported, the second one is
-- healthy.
use pg_live_sync.Prelude.{
  ◌≡◌, ◌≢◌, refl, String, contains_string, eq_refl, Bool, true, false, none, [], ◌∷◌, arith,
}
use mathlib.Core.Path.{subst}
use pg_live_sync.Errclass.{errorf, ok, ok-injective}
use pg_live_sync.Cdc.{Event}
use pg_live_sync.Destination.Repair.Markers.{KeepsMarkers}
use pg_live_sync.Writer.{GroupState, events_of, close_group, quarantine_poison}
use pg_live_sync.Writer.Quarantine.{Quarantined, quarantine_poison-IsQuarantined}
use pg_live_sync.Destination.Apply.Markers.{IsMarked}
use pg_live_sync.Destination.DeadLetters.Recording.{StoresLetters}
use pg_live_sync.Writer.Settling.{AreSettled}
use pg_live_sync.Writer.Complete.{close_group-AreSettled}
use pg_live_sync.Scenarios.{
  Contents, stored_letter, sample_database, sample-Laws, first_event, second_event,
}
use pg_live_sync.Scenarios.Writing.{sample_catalog, sample_services, idle_writer}

sample-KeepsMarkers : KeepsMarkers sample_catalog
sample-KeepsMarkers = record {
  keeps = λ statement id db at h.
      subst (λ d. sample_database.is_marked d id ≡ true) (ok-injective at) h;
}

found_letter : (id : String) (there : Bool) → there ≡ true → ok (stored_letter there id) ≢ ok none
found_letter id true h at = cc (ok-injective at)
found_letter id false h at = cc

pub sample-StoresLetters : StoresLetters sample_database
unfolding contains_string
sample-StoresLetters = record {
  stored = λ id others db at. found_letter id _ (
      subst (λ (d : Contents). contains_string d.letters id ≡ true) (ok-injective at)
        (ground (arith, eq_refl id)));
}

abbrev newer_event : Event
newer_event = record first_event { version = 2 }

abbrev poison_group : GroupState
poison_group = record {
  txid = 42;
  count = 2;
  next_seq = 3;
  tx = true;
  last_record = 8;
  buffer =
      record { offset = 7; event = newer_event } ∷ record { offset = 8; event = second_event } ∷ [];
}

offset_after :
    (close_group sample_database sample_services poison_group idle_writer).1.committed ≡ 9
unfolding close_group pg_live_sync.Destination.Batch.apply_batch pg_live_sync.Cdc.validate
    pg_live_sync.Destination.Apply.apply pg_live_sync.Destination.Rows.verify_ident
    pg_live_sync.Prelude.contains_string pg_live_sync.Destination.Rows.verify_columns
    pg_live_sync.Destination.Columns.table_columns pg_live_sync.Prelude.lookup
    pg_live_sync.Destination.Rows.transcode_row pg_live_sync.Destination.Upserts.keys_present
    pg_live_sync.Prelude.sort_strings pg_live_sync.Prelude.insert_sorted
    pg_live_sync.Prelude.str_leb pg_live_sync.Destination.Upserts.keys_changed
    pg_live_sync.Errclass.pg_code pg_live_sync.Destination.DeadLetters.record_dead_letter
    pg_live_sync.Destination.DeadLetters.run pg_live_sync.Cdc.operation_text
    pg_live_sync.Destination.Apply.apply_truncate_batched pg_live_sync.Destination.Upserts.bind
    pg_live_sync.Destination.Upserts.check_idents pg_live_sync.Destination.Apply.exec_with_poison
    pg_live_sync.Destination.Apply.mark pg_live_sync.Destination.Apply.mark_applied
    pg_live_sync.Destination.Upserts.prepare_upsert pg_live_sync.Destination.Apply.table_watermark
    pg_live_sync.Destination.Upserts.truncate_is_stale pg_live_sync.Destination.Batch.check_batch
    pg_live_sync.Destination.Batch.close_batch pg_live_sync.Destination.Batch.flush
    pg_live_sync.Destination.Batch.mark_batch pg_live_sync.Destination.Batch.mark_one
    pg_live_sync.Destination.Batch.mutate_batch pg_live_sync.Destination.Batch.prepared
    pg_live_sync.Destination.Batch.queue_delete pg_live_sync.Destination.Batch.queue_event
    pg_live_sync.Destination.Batch.queue_upsert pg_live_sync.Destination.Batch.run_one
    pg_live_sync.Destination.Batch.run_queue pg_live_sync.Destination.Columns.is_fresh
    pg_live_sync.Destination.Columns.types_of pg_live_sync.Destination.DeadLetters.in_tx
    pg_live_sync.Destination.DeadLetters.letter_parameters
    pg_live_sync.Destination.Rows.append_numbered pg_live_sync.Destination.Rows.is_reserved
    pg_live_sync.Destination.Rows.poison_or_wrap pg_live_sync.Destination.Sql.double_char
    pg_live_sync.Destination.Sql.ident_rest pg_live_sync.Destination.Sql.ident_start
    pg_live_sync.Destination.Sql.is_ident pg_live_sync.Destination.Sql.qualified
    pg_live_sync.Destination.Sql.quote_ident pg_live_sync.Errclass.permanentf
    pg_live_sync.Prelude.delete pg_live_sync.Prelude.insert pg_live_sync.Prelude.concat
    pg_live_sync.Prelude.itoa pg_live_sync.Retry.do_from pg_live_sync.Retry.do_retry
    pg_live_sync.Writer.as_batch_error pg_live_sync.Writer.commit_destination_transaction
    pg_live_sync.Writer.commit_kafka_offset
offset_after = refl

offset_moves :
    (close_group sample_database sample_services poison_group idle_writer).1.committed
    ≢ idle_writer.committed
offset_moves same = absurd (omega (arith, offset_after, same))

close_group-AreSettled_example :
    AreSettled sample_database
      (events_of poison_group)
      (close_group sample_database sample_services poison_group idle_writer).1
close_group-AreSettled_example =
    close_group-AreSettled sample_services sample-Laws sample-KeepsMarkers poison_group idle_writer
      refl offset_moves

quarantine_poison-IsQuarantined_example :
    let after =
      (quarantine_poison sample_database sample_services newer_event
        (errorf "unsupported version" [])
        idle_writer).1 in
    IsMarked sample_database "0/10-1" after.world
    × Quarantined sample_services sample-Laws sample-StoresLetters false newer_event idle_writer
        after
unfolding quarantine_poison contains_string pg_live_sync.Destination.DeadLetters.record_dead_letter
    pg_live_sync.Destination.Apply.mark_applied pg_live_sync.Destination.DeadLetters.run
    pg_live_sync.Destination.Rows.is_undefined_column pg_live_sync.Errclass.pg_code
quarantine_poison-IsQuarantined_example =
    quarantine_poison-IsQuarantined sample_services sample-Laws sample-StoresLetters
      sample-KeepsMarkers newer_event (errorf "unsupported version" []) idle_writer refl
