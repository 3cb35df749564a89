-- ===== src/Scenarios/Decoding.antt =====
-- Runs of internal/source.
use pg_live_sync.Prelude.{
  ◌≡◌, refl, ℕ, ◌≤◌, String, Bool, true, false, Option, none, some, List, [], ◌∷◌, ◌++◌, All,
  length, is_empty, lookup, arith,
}
use pg_live_sync.Errclass.{ok}
use pg_live_sync.Cdc.{Row, insert_op}
use pg_live_sync.Source.Messages.{Relation, Tuple, insert_message, PendingChange, Decoder}
use pg_live_sync.Source.Tuple.{decode_tuple, primary_key, equal_rows}
use pg_live_sync.Source.Tuple.Accounts.{IsAccounted, decode_tuple-IsAccounted}
use pg_live_sync.Source.Tuple.Keys.{IsKeyOf, primary_key-IsKeyOf}
use pg_live_sync.Source.Spool.{Codec, Host}
use pg_live_sync.Source.Spool.Limits.{FitsMemory}
use pg_live_sync.Source.Spool.Pulling.Lines.{Encodes}
use pg_live_sync.Source.Spool.Pulling.Draining.{events_of}
use pg_live_sync.Source.Handle.{handle}
use pg_live_sync.Source.Handle.Limits.{handle-FitsMemory}
use pg_live_sync.Source.Handle.Roundtrip.{committed, transaction_events, transaction_events_lem}

abbrev pub sample_change : PendingChange
sample_change = record {
  schema = "public";
  table = "users";
  operation = insert_op;
  key = ("id", some "7") ∷ [];
  before = [];
  after = ("id", some "7") ∷ ("name", none) ∷ [];
  unchanged = [];
}

-- A disk format that knows one change only.
abbrev pub sample_codec : Codec
sample_codec = record {
  marshal = λ change. some (123 ∷ 125 ∷ []);
  unmarshal = λ line. some sample_change;
}

abbrev pub sample_host : Host
sample_host = record {
  temp_name = some "/tmp/spool";
  write_ok = true;
  seek_ok = true;
  read_ok = true;
}

abbrev pub sample_lsn_text : ℕ → String
sample_lsn_text lsn = "0/10"

pub sample-Encodes : Encodes sample_codec sample_change
sample-Encodes = record {
  line = 123 ∷ 125 ∷ [];
  marshals = refl;
  one_line = (refl, (refl, tt));
  unmarshals = refl;
}

abbrev three_changes : List PendingChange
three_changes = sample_change ∷ sample_change ∷ sample_change ∷ []

-- A decoder that keeps one change in memory: the other two go through the spool.
abbrev pub small_decoder : Decoder
small_decoder = record {
  relations = [];
  keys = [];
  identity = none;
  transaction = none;
  pull = none;
  spool_cap = 1;
  files = [];
}

transaction_events_example :
    (transaction_events sample_codec sample_lsn_text sample_host 42 three_changes 16 32 1000
      small_decoder).0
    ≡ ok (events_of sample_lsn_text (committed 42 16 32 1000 three_changes) 0 three_changes)
transaction_events_example =
    transaction_events_lem sample_codec sample_lsn_text sample_host refl refl refl refl
      small_decoder 42 16 32 1000 three_changes refl
      (sample-Encodes, (sample-Encodes, (sample-Encodes, tt)))

abbrev sample_relation : Relation
sample_relation = record {
  relation_id = 5;
  namespace = "public";
  relation_name = "users";
  columns = record { name = "id"; flags = 1 } ∷ record { name = "name"; flags = 0 } ∷ [];
}

abbrev sample_tuple : Tuple
sample_tuple =
    some (record { data_type = 116; text = "7" } ∷ record { data_type = 117; text = "" } ∷ [])

-- One change is in memory, and the next insert must go to the spool.
abbrev full_decoder : Decoder
full_decoder = record small_decoder {
  relations = (5, sample_relation) ∷ [];
  keys = (5, "id" ∷ []) ∷ [];
  transaction = some (record { id = 42; mem = sample_change ∷ []; spool = none; spool_n = 0 });
}

handle_example :
    FitsMemory (handle sample_codec sample_host (insert_message 5 sample_tuple) full_decoder).1
handle_example =
    handle-FitsMemory sample_codec sample_host (insert_message 5 sample_tuple) full_decoder
      (omega arith)

decode_tuple_example :
    All (IsAccounted (("id", some "7") ∷ []) ("name" ∷ [])) sample_relation.columns
unfolding decode_tuple pg_live_sync.Source.Tuple.decode_columns
    pg_live_sync.Source.Tuple.decode_value lookup pg_live_sync.Prelude.insert
decode_tuple_example =
    decode_tuple-IsAccounted sample_relation sample_tuple [] (("id", some "7") ∷ []) ("name" ∷ [])
      refl

abbrev sample_row : Row
sample_row = ("id", some "7") ∷ ("name", none) ∷ []

abbrev sample_key : Row
sample_key = ("id", some "7") ∷ []

primary_key_example : IsKeyOf sample_key sample_row × (is_empty sample_key ≡ false)
unfolding primary_key pg_live_sync.Source.Tuple.collect_key pg_live_sync.Source.Tuple.key_columns
    lookup pg_live_sync.Prelude.insert
primary_key_example = primary_key-IsKeyOf none sample_relation sample_row sample_key refl

abbrev left_row : Row
left_row = ("a", some "1") ∷ ("b", some "2") ∷ []

abbrev right_row : Row
right_row = ("b", some "2") ∷ ("a", some "1") ∷ []

same_rows : equal_rows left_row right_row ≡ true
unfolding equal_rows pg_live_sync.Source.Tuple.all_matched lookup
    pg_live_sync.Source.Tuple.equal_values
same_rows = refl
