-- ===== src/Source/Messages.antt =====
-- The pgoutput messages that the decoder reads (the fields of github.com/jackc/pglogrepl's types
-- that internal/source/decoder.go uses), and the decoder's own state.
use pg_live_sync.Prelude.{ℕ, String, Option, none, List, []}
use pg_live_sync.Cdc.{Operation, Row}

-- pglogrepl.RelationMessageColumn; bit 0 of the flags marks a key column.
pub record Column : Type 0 where
  pub name : String
  pub flags : ℕ

pub record Relation : Type 0 where
  pub relation_id : ℕ
  pub namespace : String
  pub relation_name : String
  pub columns : List Column

pub record TupleColumn : Type 0 where
  pub data_type : ℕ  -- a byte
  pub text : String

-- `none` is a nil *TupleData.
abbrev pub Tuple : Type 0
Tuple = Option (List TupleColumn)

pub data Message : Type 0 where
  relation_message : Relation → Message
  begin_message : ℕ → Message
  insert_message : ℕ → Tuple → Message
  -- relation, kind of the old tuple, old tuple, new tuple
  update_message : ℕ → ℕ → Tuple → Tuple → Message
  delete_message : ℕ → ℕ → Tuple → Message
  truncate_message : List ℕ → Message
  -- commit LSN, end LSN, commit time
  commit_message : ℕ → ℕ → ℕ → Message
  -- type, origin and logical messages
  other_message : Message

pub record CommittedTransaction : Type 0 where
  pub transaction_id : ℕ
  pub commit_lsn : ℕ
  pub end_lsn : ℕ
  pub commit_time : ℕ
  pub count : ℕ

pub record PendingChange : Type 0 where
  pub schema : String
  pub table : String
  pub operation : Operation
  pub key : Row
  pub before : Row
  pub after : Row
  pub unchanged : List String

-- An open temporary file: its path, and the bytes written to it or still to be read from it.
pub record SpoolFile : Type 0 where
  pub path : String
  pub bytes : List ℕ

pub record PendingTransaction : Type 0 where
  pub id : ℕ
  pub mem : List PendingChange
  pub spool : Option SpoolFile
  pub spool_n : ℕ

pub record PullState : Type 0 where
  pub commit : CommittedTransaction
  pub changes : List PendingChange
  pub spool : Option SpoolFile
  pub seq : ℕ

pub record Decoder : Type 0 where
  pub relations : List (ℕ × Relation)
  pub keys : List (ℕ × List String)
  pub identity : Option (String → String → List String)
  pub transaction : Option PendingTransaction
  pub pull : Option PullState
  pub spool_cap : ℕ
  -- the file system's part: paths of the spool files that exist
  pub files : List String

abbrev pub default_spool_cap : ℕ
default_spool_cap = 4096

unfoldable pub new_decoder : Decoder
new_decoder = record {
  relations = [];
  keys = [];
  identity = none;
  transaction = none;
  pull = none;
  spool_cap = default_spool_cap;
  files = [];
}

unfoldable pub new_decoder_with_identity : (String → String → List String) → Decoder
unfolding new_decoder
new_decoder_with_identity resolve = record new_decoder { identity = Option.some resolve }

unfoldable pub new_decoder_with_spool_cap : ℕ → Decoder
unfolding new_decoder
new_decoder_with_spool_cap cap = record new_decoder { spool_cap = cap }
