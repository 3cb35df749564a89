-- ===== src/Source/Spool.antt =====
-- `append`, `NextEvent`, `Reset` and `closePull` of internal/source/decoder.go: a transaction is
-- kept in memory up to a cap and in a temporary file of JSON lines beyond it.
pub mod Limits
pub mod Pulling
use pg_live_sync.Prelude.{
  ℕ, suc, ◌+◌, ◌==◌, ltb, String, str_eq, Bool, true, false, Option, none, some, List, [], ◌∷◌,
  ◌++◌, length, get_elem?, is_empty, concat, itoa, if◌then◌else◌,
}
use pg_live_sync.Errclass.{Error, errorf, wrapf, transport, Result, ok, err}
use pg_live_sync.Action.{Action, pure, fail, modify, continue, ◌>>=◌, ◌>>◌}
use pg_live_sync.Cdc.{Event, event_version}
use pg_live_sync.Source.Messages.{
  CommittedTransaction, Decoder, PendingChange, PendingTransaction, PullState, SpoolFile,
}

-- encoding/json on the disk format of a change: `none` is an error.
pub record Codec : Type 0 where
  pub marshal : PendingChange → Option (List ℕ)
  pub unmarshal : List ℕ → Option PendingChange

-- What the operating system answers during one call: the name of a new temporary file, or `none`
-- where none can be made, and whether a write, a seek and a read succeed.
pub record Host : Type 0 where
  pub temp_name : Option String
  pub write_ok : Bool
  pub seek_ok : Bool
  pub read_ok : Bool

abbrev pub io_error : Error
io_error = transport "input/output error"

-- os.Remove
unfoldable pub remove : String → List String → List String
remove path [] = []
remove path (file ∷ files) =
    let rest = remove path files in if str_eq file path then rest else file ∷ rest

unfoldable pub close_file : Option SpoolFile → List String → List String
unfolding remove
close_file none files = files
close_file (some file) files = if str_eq file.path "" then files else remove file.path files

close_open_pull : Option PullState → Decoder → Decoder
unfolding close_file
close_open_pull none decoder = decoder
close_open_pull (some pull) decoder = record decoder {
  pull = none;
  files = close_file pull.spool decoder.files;
}

unfoldable pub close_pull : Decoder → Decoder
unfolding close_open_pull
close_pull decoder = close_open_pull decoder.pull decoder

transaction_spool : Option PendingTransaction → Option SpoolFile
transaction_spool none = none
transaction_spool (some transaction) = transaction.spool

unfoldable pub reset : Decoder → Decoder
unfolding close_pull transaction_spool
reset decoder =
    let closed = close_pull decoder in
    record closed {
      files = close_file (transaction_spool closed.transaction) closed.files;
      transaction = none;
      relations = [];
    }

module _ (codec : Codec) (host : Host) where
  create_spool : PendingTransaction → Option String → Action Decoder SpoolFile
  create_spool transaction none = fail (wrapf "create transaction spool" [] io_error)
  create_spool transaction (some path) = do
    let file : SpoolFile = record { path = path; bytes = [] }
    modify (λ (d : Decoder). record d {
      transaction = some (record transaction { spool = some file });
      files = path ∷ d.files;
    })
    pure file

  open_spool : PendingTransaction → Option SpoolFile → Action Decoder SpoolFile
  unfolding create_spool
  open_spool transaction none = create_spool transaction host.temp_name
  open_spool transaction (some file) = pure file

  write_line : PendingTransaction → SpoolFile → Option (List ℕ) → Action Decoder Unit
  write_line transaction file none = fail (wrapf "spool transaction event" [] io_error)
  write_line transaction file (some line) =
      if host.write_ok
      then modify (λ (d : Decoder). record d {
        transaction = some (record transaction {
          spool = some (record file { bytes = file.bytes ++ (line ++ 10 ∷ []) });
          spool_n = transaction.spool_n + 1;
        });
      })
      else fail (wrapf "write transaction spool" [] io_error)

  append_to : PendingChange → Option PendingTransaction → Action Decoder Unit
  unfolding open_spool write_line
  append_to change none decoder =
      (err (errorf "received row change outside a transaction" []), decoder)
  append_to change (some transaction) decoder =
      if ltb (length transaction.mem) decoder.spool_cap
      then (
        ok tt,
        record decoder {
          transaction = some (record transaction { mem = transaction.mem ++ change ∷ [] });
        },
      )
      else (open_spool transaction transaction.spool >>= λ file.
            write_line transaction file (codec.marshal change))
          decoder

  unfoldable pub append : PendingChange → Action Decoder Unit
  unfolding append_to
  append change decoder = append_to change decoder.transaction decoder

-- bufio.Reader.ReadBytes('\n'): the line with its end, or what is left, and the rest of the file.
unfoldable pub read_line : List ℕ → List ℕ × List ℕ
read_line [] = ([], [])
read_line (b ∷ bs) =
    let (line, rest) = read_line bs in if b == 10 then (b ∷ [], bs) else (b ∷ line, rest)

module _ (lsn_text : ℕ → String) where
  -- The event that a change becomes, at a position of its transaction.
  unfoldable pub event_of : CommittedTransaction → ℕ → PendingChange → Event
  event_of commit sequence change = record {
    version = event_version;
    id = concat (lsn_text commit.commit_lsn ∷ ":" ∷ itoa sequence ∷ []);
    schema = change.schema;
    table = change.table;
    operation = change.operation;
    key = change.key;
    before = change.before;
    after = change.after;
    source = record {
      transaction_id = commit.transaction_id;
      commit_lsn = lsn_text commit.commit_lsn;
      transaction_end_lsn = lsn_text commit.end_lsn;
      commit_time = commit.commit_time;
      sequence = sequence;
      transaction_event_count = commit.count;
    };
    unchanged_columns = change.unchanged;
  }

module _ (codec : Codec) (lsn_text : ℕ → String) where
  unfoldable pub emit : PullState → PendingChange → Action Decoder (Option Event)
  unfolding event_of
  emit pull change decoder =
      let next = record pull { seq = suc pull.seq } in
      (
        ok (some (event_of lsn_text next.commit next.seq change)),
        record decoder { pull = some next },
      )

  decode_line : PullState → Option PendingChange → Action Decoder (Option Event)
  decode_line pull none decoder =
      (err (wrapf "decode spooled transaction event" [] io_error), close_pull decoder)
  decode_line pull (some change) decoder = emit pull change decoder

  unfoldable pub next_spooled : Host → PullState → Option SpoolFile → Action Decoder (Option Event)
  unfolding decode_line
  next_spooled host pull none decoder = (ok none, close_pull decoder)
  next_spooled host pull (some file) decoder =
      let (line, rest) = read_line file.bytes in
      if host.read_ok
      then if is_empty line
        then (ok none, close_pull decoder)
        else decode_line (record pull { spool = some (record file { bytes = rest }) })
            (codec.unmarshal line) decoder
      else (err (wrapf "read spooled transaction events" [] io_error), close_pull decoder)

  unfoldable pub next_change :
      Host → PullState → Option PendingChange → Action Decoder (Option Event)
  next_change host pull (some change) decoder = emit pull change decoder
  next_change host pull none decoder = next_spooled host pull pull.spool decoder

  next_of : Host → Option PullState → Action Decoder (Option Event)
  next_of host none decoder = (err (errorf "no open transaction to pull" []), decoder)
  next_of host (some pull) decoder = next_change host pull (get_elem? pull.changes pull.seq) decoder

  -- `NextEvent`: `none` once the transaction is drained.
  unfoldable pub next_event : Host → Action Decoder (Option Event)
  unfolding next_of
  next_event host decoder = next_of host decoder.pull decoder
