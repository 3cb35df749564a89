-- ===== src/Source/Handle/Limits.antt =====
-- The memory bound of `Handle` (internal/source/decoder.go): DefaultSpoolCap.
use pg_live_sync.Prelude.{ℕ, Bool, String, Option, none, some, List, [], ◌∷◌, arith}
use pg_live_sync.Action.Keeps.{Keeps, Keeps-bind, keeps_rules}
use pg_live_sync.Cdc.{Row, truncate_op}
use pg_live_sync.Source.Messages.{
  Decoder, Message, PendingTransaction, PullState, Relation, SpoolFile, Tuple, relation_message,
  begin_message, insert_message, update_message, delete_message, truncate_message, commit_message,
  other_message,
}
use pg_live_sync.Source.Spool.{Codec, Host, append}
use pg_live_sync.Source.Spool.Limits.{FitsMemory, append-FitsMemory, close_pull-FitsMemory}
use pg_live_sync.Source.Handle.{
  change_of, handle, on_relation, on_begin, on_insert, on_update, on_delete, on_truncate, on_commit,
  relation_of, key_of, decode_for, old_image, append_insert, append_update, append_key_change,
  truncate_all, truncate_in, described_relation, commit_with, rewind, pull_of,
}

module _ (codec : Codec) (host : Host) where
  on_relation-FitsMemory : (relation : Relation) → Keeps FitsMemory (on_relation relation)
  unfolding on_relation
  on_relation-FitsMemory relation = record { after = λ d h. h }

  on_begin-FitsMemory : (xid : ℕ) → Keeps FitsMemory (on_begin xid)
  unfolding on_begin
  on_begin-FitsMemory xid = record { after = λ d h. ground arith }

  relation_of-FitsMemory : (id : ℕ) → Keeps FitsMemory (relation_of id)
  unfolding relation_of
  relation_of-FitsMemory id = record { after = λ d h. h }

  key_of-FitsMemory : (relation : Relation) (row : Row) → Keeps FitsMemory (key_of relation row)
  unfolding key_of
  key_of-FitsMemory relation row = record { after = λ d h. h }

  decode_for-FitsMemory :
      (format : String) (relation : Relation) (tuple : Tuple) (key_only : Bool) (fill : Row)
      → Keeps FitsMemory (decode_for format relation tuple key_only fill)
  unfolding decode_for
  decode_for-FitsMemory format relation tuple key_only fill = record { after = λ d h. h }

  ruleset rules = (
    keeps_rules, append-FitsMemory, relation_of-FitsMemory, key_of-FitsMemory,
    decode_for-FitsMemory,
  )

  append_insert-FitsMemory :
      (relation : Relation) (after : Row)
      → Keeps FitsMemory (append_insert codec host relation after)
  unfolding append_insert
  append_insert-FitsMemory relation after = search rules

  on_insert-FitsMemory : (id : ℕ) (tuple : Tuple) → Keeps FitsMemory (on_insert codec host id tuple)
  unfolding on_insert
  on_insert-FitsMemory id tuple = search (rules, append_insert-FitsMemory)

  old_image-FitsMemory :
      (relation : Relation) (kind : ℕ) (tuple : Tuple)
      → Keeps FitsMemory (old_image codec host relation kind tuple)
  unfolding old_image
  old_image-FitsMemory relation kind none = search rules
  old_image-FitsMemory relation kind (some columns) = search rules

  append_key_change-FitsMemory :
      (relation : Relation) (old : Option (Row × Row)) (new_key after : Row)
      (unchanged : List String)
      → Keeps FitsMemory (append_key_change codec host relation old new_key after unchanged)
  unfolding append_key_change
  append_key_change-FitsMemory relation old new_key after unchanged = search rules

  append_update-FitsMemory :
      (relation : Relation) (old : Option (Row × Row)) (new_key after : Row)
      (unchanged : List String)
      → Keeps FitsMemory (append_update codec host relation old new_key after unchanged)
  unfolding append_update
  append_update-FitsMemory relation old new_key after unchanged = search rules

  on_update-FitsMemory :
      (id kind : ℕ) (old_tuple new_tuple : Tuple)
      → Keeps FitsMemory (on_update codec host id kind old_tuple new_tuple)
  unfolding on_update
  on_update-FitsMemory id kind old_tuple new_tuple =
      search (rules, old_image-FitsMemory, append_key_change-FitsMemory, append_update-FitsMemory)
        depth 7

  on_delete-FitsMemory :
      (id kind : ℕ) (tuple : Tuple) → Keeps FitsMemory (on_delete codec host id kind tuple)
  unfolding on_delete
  on_delete-FitsMemory id kind tuple = search rules

  truncate_one-FitsMemory : (id : ℕ) → Keeps FitsMemory (described_relation codec host id)
  unfolding described_relation
  truncate_one-FitsMemory id = record { after = λ d h. (relation_of-FitsMemory id).after d h }

  truncate_all-FitsMemory : (ids : List ℕ) → Keeps FitsMemory (truncate_all codec host ids)
  unfolding truncate_all
  truncate_all-FitsMemory [] = search rules
  truncate_all-FitsMemory (id ∷ ids) =
      Keeps-bind (described_relation codec host id) _ (truncate_one-FitsMemory id) (λ relation.
        Keeps-bind (append codec host (record (change_of relation) { operation = truncate_op }))
          (λ _. truncate_all codec host ids) (append-FitsMemory codec host _)
          (λ _. truncate_all-FitsMemory ids))

  on_truncate-FitsMemory : (ids : List ℕ) → Keeps FitsMemory (on_truncate codec host ids)
  unfolding on_truncate
  on_truncate-FitsMemory ids = record { after = λ d h. truncate_in-FitsMemory d.transaction d h }
    where
      truncate_in-FitsMemory :
          (t : Option PendingTransaction) (d : Decoder)
          → FitsMemory d
          → FitsMemory (truncate_in codec host ids t d).1
      truncate_in-FitsMemory none d h = h
      truncate_in-FitsMemory (some t) d h = (truncate_all-FitsMemory ids).after d h

  rewind-FitsMemory :
      (pull : PullState) (file : Option SpoolFile) → Keeps FitsMemory (rewind codec host pull file)
  unfolding rewind
  rewind-FitsMemory pull none = record { after = λ d h. h }
  rewind-FitsMemory pull (some file) = record {
    after = λ d h. ground (arith, close_pull-FitsMemory d h);
  }

  commit_with-FitsMemory :
      (commit_lsn end_lsn commit_time : ℕ) (t : Option PendingTransaction) (d : Decoder)
      → FitsMemory d
      → FitsMemory (commit_with codec host commit_lsn end_lsn commit_time t d).1
  unfolding commit_with
  commit_with-FitsMemory commit_lsn end_lsn commit_time none d h = h
  commit_with-FitsMemory commit_lsn end_lsn commit_time (some t) d h =
      (rewind-FitsMemory (pull_of codec host commit_lsn end_lsn commit_time t) t.spool).after _
        (omega arith)

  on_commit-FitsMemory :
      (commit_lsn end_lsn commit_time : ℕ)
      → Keeps FitsMemory (on_commit codec host commit_lsn end_lsn commit_time)
  unfolding on_commit
  on_commit-FitsMemory commit_lsn end_lsn commit_time = record {
    after = λ d h. commit_with-FitsMemory commit_lsn end_lsn commit_time d.transaction d h;
  }

  handle-Keeps : (message : Message) → Keeps FitsMemory (handle codec host message)
  unfolding handle
  handle-Keeps (relation_message relation) = on_relation-FitsMemory relation
  handle-Keeps (begin_message xid) = on_begin-FitsMemory xid
  handle-Keeps (insert_message id tuple) = on_insert-FitsMemory id tuple
  handle-Keeps (update_message id kind old_tuple new_tuple) =
      on_update-FitsMemory id kind old_tuple new_tuple
  handle-Keeps (delete_message id kind tuple) = on_delete-FitsMemory id kind tuple
  handle-Keeps (truncate_message ids) = on_truncate-FitsMemory ids
  handle-Keeps (commit_message commit_lsn end_lsn commit_time) =
      on_commit-FitsMemory commit_lsn end_lsn commit_time
  handle-Keeps other_message = search rules

  -- Whatever the message, and also where `Handle` returns an error, the open transaction keeps at
  -- most `spool_cap` changes in memory, if it did before.
  pub handle-FitsMemory :
      (message : Message) (d : Decoder) → FitsMemory d → FitsMemory (handle codec host message d).1
  handle-FitsMemory message d = (handle-Keeps message).after d
