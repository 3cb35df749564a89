-- ===== src/Source/Handle.antt =====
-- `Handle` of internal/source/decoder.go: one function for each case of its switch.
pub mod Limits
pub mod Roundtrip
use pg_live_sync.Prelude.{
  ℕ, ◌+◌, ◌==◌, String, Bool, true, false, not, ◌&&◌, Option, none, some, List, [], ◌∷◌, length,
  is_empty, lookup, insert, itoa, if◌then◌else◌,
}
use pg_live_sync.Errclass.{errorf, wrapf, Result, ok, err}
use pg_live_sync.Action.{Action, pure, fail, lift, map_error, continue, ◌>>=◌, ◌>>◌}
use pg_live_sync.Cdc.{Row, insert_op, update_op, delete_op, truncate_op}
use pg_live_sync.Source.Messages.{
  Relation, Tuple, Message, CommittedTransaction, PendingChange, PendingTransaction, PullState,
  SpoolFile, Decoder, relation_message, begin_message, insert_message, update_message,
  delete_message, truncate_message, commit_message, other_message,
}
use pg_live_sync.Source.Tuple.{decode_tuple, primary_key, equal_rows, fill_unchanged}
use pg_live_sync.Source.Spool.{Codec, Host, append, close_pull, io_error}

-- A map keyed by relation ids.
unfoldable pub lookup_id {ℓ} : {V : Type ℓ} → ℕ → List (ℕ × V) → Option V
lookup_id k [] = none
lookup_id k ((j, v) ∷ m) = if j == k then some v else lookup_id k m

unfoldable pub insert_id {ℓ} : {V : Type ℓ} → ℕ → V → List (ℕ × V) → List (ℕ × V)
insert_id k v [] = (k, v) ∷ []
insert_id k v ((j, w) ∷ m) = if j == k then (k, v) ∷ m else (j, w) ∷ insert_id k v m

described : ℕ → Option Relation → Result Relation
described id none = err (errorf "relation %d has not been described" (itoa id ∷ []))
described id (some relation) = ok relation

unfoldable pub relation_of : ℕ → Action Decoder Relation
unfolding described lookup_id
relation_of id decoder = (described id (lookup_id id decoder.relations), decoder)

unfoldable pub key_of : Relation → Row → Action Decoder Row
unfolding lookup_id
key_of relation row decoder =
    (primary_key (lookup_id relation.relation_id decoder.keys) relation row, decoder)

-- "decode ... for schema.table: %w"
unfoldable pub decode_for :
    String → Relation → Tuple → Bool → Row → Action Decoder (Row × List String)
decode_for format relation tuple key_only fill = lift (
    map_error (wrapf format (relation.namespace ∷ relation.relation_name ∷ []))
      (decode_tuple relation tuple key_only fill))

discovered :
    Option (String → String → List String)
    → Relation
    → List (ℕ × List String)
    → List (ℕ × List String)
unfolding insert_id
discovered none relation keys = keys
discovered (some resolve) relation keys =
    insert_id relation.relation_id (resolve relation.namespace relation.relation_name) keys

unfoldable pub on_relation : Relation → Action Decoder (Option CommittedTransaction)
unfolding discovered insert_id
on_relation relation decoder = (
  ok none,
  record decoder {
    relations = insert_id relation.relation_id relation decoder.relations;
    keys = discovered decoder.identity relation decoder.keys;
  },
)

begin_with : ℕ → Option PendingTransaction → Action Decoder (Option CommittedTransaction)
begin_with xid none decoder = (
  ok none,
  record decoder { transaction = some (record { id = xid; mem = []; spool = none; spool_n = 0 }) },
)
begin_with xid (some transaction) decoder = (
  err (
      errorf "received begin for transaction %d while transaction %d is open"
        (itoa xid ∷ itoa transaction.id ∷ [])),
  decoder,
)

unfoldable pub on_begin : ℕ → Action Decoder (Option CommittedTransaction)
unfolding begin_with
on_begin xid decoder = begin_with xid decoder.transaction decoder

abbrev pub change_of : Relation → PendingChange
change_of relation = record {
  schema = relation.namespace;
  table = relation.relation_name;
  operation = insert_op;
  key = [];
  before = [];
  after = [];
  unchanged = [];
}

abbrev pub old_row_of : Option (Row × Row) → Row
old_row_of none = []
old_row_of (some (row, key)) = row

-- message.OldTuple != nil && !equalRows(oldKey, newKey)
abbrev pub key_changed : Option (Row × Row) → Row → Bool
key_changed none new_key = false
key_changed (some (row, key)) new_key = not (equal_rows key new_key)

abbrev pub update_key : Option (Row × Row) → Row → Row
update_key none new_key = new_key
update_key (some (row, key)) new_key = key

module _ (codec : Codec) (host : Host) where
  unfoldable pub append_insert : Relation → Row → Action Decoder (Option CommittedTransaction)
  unfolding key_of
  append_insert relation after = do
    key ← key_of relation after
    append codec host (record (change_of relation) { key = key; after = after })
    pure none

  unfoldable pub on_insert : ℕ → Tuple → Action Decoder (Option CommittedTransaction)
  unfolding relation_of decode_for append_insert
  on_insert id tuple = do
    relation ← relation_of id
    decoded ← decode_for "decode insert for %s.%s" relation tuple false []
    if not (is_empty decoded.1)
        then fail (
            errorf "insert for %s.%s carries unchanged TOAST markers"
              (relation.namespace ∷ relation.relation_name ∷ []))
        else append_insert relation decoded.0

  -- The old row and the old key, where an old tuple was sent.
  unfoldable pub old_image : Relation → ℕ → Tuple → Action Decoder (Option (Row × Row))
  unfolding decode_for key_of
  old_image relation kind none = pure none
  old_image relation kind (some columns) = do
    decoded ←
        decode_for "decode old update tuple for %s.%s" relation (some columns) (kind == b'K') []
    key ← key_of relation decoded.0
    pure (some (decoded.0, key))

  -- A changed key is a delete of the old one and an insert of the new one.
  unfoldable pub append_key_change :
      Relation
      → Option (Row × Row)
      → Row
      → Row
      → List String
      → Action Decoder (Option CommittedTransaction)
  append_key_change relation old new_key after unchanged = do
    complete ← lift (fill_unchanged relation (old_row_of old) unchanged after)
    append codec host (record (change_of relation) {
      operation = delete_op;
      key = update_key old new_key;
      before = old_row_of old;
    })
    append codec host (record (change_of relation) { key = new_key; after = complete })
    pure none

  unfoldable pub append_update :
      Relation
      → Option (Row × Row)
      → Row
      → Row
      → List String
      → Action Decoder (Option CommittedTransaction)
  append_update relation old new_key after unchanged = do
    append codec host (record (change_of relation) {
      operation = update_op;
      key = update_key old new_key;
      before = old_row_of old;
      after = after;
      unchanged = unchanged;
    })
    pure none

  unfoldable pub on_update : ℕ → ℕ → Tuple → Tuple → Action Decoder (Option CommittedTransaction)
  unfolding relation_of old_image decode_for key_of append_key_change append_update
  on_update id kind old_tuple new_tuple = do
    relation ← relation_of id
    old ← old_image relation kind old_tuple
    decoded ←
        decode_for "decode new update tuple for %s.%s" relation new_tuple false (old_row_of old)
    new_key ← key_of relation decoded.0
    if key_changed old new_key
        then append_key_change relation old new_key decoded.0 decoded.1
        else append_update relation old new_key decoded.0 decoded.1

  unfoldable pub on_delete : ℕ → ℕ → Tuple → Action Decoder (Option CommittedTransaction)
  unfolding relation_of decode_for key_of
  on_delete id kind tuple = do
    relation ← relation_of id
    decoded ← decode_for "decode delete for %s.%s" relation tuple (kind == b'K') []
    key ← key_of relation decoded.0
    append codec host
        (record (change_of relation) { operation = delete_op; key = key; before = decoded.0 })
    pure none

  -- "truncate references undescribed relation %d: %w"
  unfoldable pub described_relation : ℕ → Action Decoder Relation
  unfolding relation_of
  described_relation id decoder =
      let (found, same) = relation_of id decoder in
      (map_error (wrapf "truncate references undescribed relation %d" (itoa id ∷ [])) found, same)

  unfoldable pub truncate_all : List ℕ → Action Decoder (Option CommittedTransaction)
  unfolding described_relation
  truncate_all [] = pure none
  truncate_all (id ∷ ids) = do
    relation ← described_relation id
    append codec host (record (change_of relation) { operation = truncate_op })
    truncate_all ids

  truncate_in : List ℕ → Option PendingTransaction → Action Decoder (Option CommittedTransaction)
  truncate_in ids none = fail (errorf "received truncate outside a transaction" [])
  truncate_in ids (some transaction) = truncate_all ids

  unfoldable pub on_truncate : List ℕ → Action Decoder (Option CommittedTransaction)
  unfolding truncate_in truncate_all
  on_truncate ids decoder = truncate_in ids decoder.transaction decoder

  pull_of : ℕ → ℕ → ℕ → PendingTransaction → PullState
  pull_of commit_lsn end_lsn commit_time transaction = record {
    commit = record {
      transaction_id = transaction.id;
      commit_lsn = commit_lsn;
      end_lsn = end_lsn;
      commit_time = commit_time;
      count = length transaction.mem + transaction.spool_n;
    };
    changes = transaction.mem;
    spool = transaction.spool;
    seq = 0;
  }

  -- Seek to the start of the spool, where there is one.
  rewind : PullState → Option SpoolFile → Action Decoder (Option CommittedTransaction)
  rewind pull none decoder = (ok (some pull.commit), decoder)
  rewind pull (some file) decoder =
      if host.seek_ok
      then (ok (some pull.commit), decoder)
      else (err (wrapf "rewind transaction spool" [] io_error), close_pull decoder)

  commit_with : ℕ → ℕ → ℕ → Option PendingTransaction → Action Decoder (Option CommittedTransaction)
  unfolding pull_of rewind
  commit_with commit_lsn end_lsn commit_time none decoder =
      (err (errorf "received commit with no open transaction" []), decoder)
  commit_with commit_lsn end_lsn commit_time (some transaction) decoder =
      let pull = pull_of commit_lsn end_lsn commit_time transaction in
      rewind pull pull.spool (record decoder { transaction = none; pull = some pull })

  unfoldable pub on_commit : ℕ → ℕ → ℕ → Action Decoder (Option CommittedTransaction)
  unfolding commit_with
  on_commit commit_lsn end_lsn commit_time decoder =
      commit_with commit_lsn end_lsn commit_time decoder.transaction decoder

  -- `Handle`
  unfoldable pub handle : Message → Action Decoder (Option CommittedTransaction)
  handle (relation_message relation) = on_relation relation
  handle (begin_message xid) = on_begin xid
  handle (insert_message id tuple) = on_insert id tuple
  handle (update_message id kind old_tuple new_tuple) = on_update id kind old_tuple new_tuple
  handle (delete_message id kind tuple) = on_delete id kind tuple
  handle (truncate_message ids) = on_truncate ids
  handle (commit_message commit_lsn end_lsn commit_time) = on_commit commit_lsn end_lsn commit_time
  handle other_message = pure none
