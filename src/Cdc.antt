-- ===== src/Cdc.antt =====
-- internal/cdc/event.go: the contract between the source reader and the destination writer.
-- A row is a Go map in the order of insertion; a nil map and an empty one are both `[]`.
pub mod Validity
use pg_live_sync.Prelude.{
  ℕ, ◌==◌, String, str_eq, ◌||◌, Option, some, List, [], ◌∷◌, concat, itoa, sort_strings, lookup,
  keys, is_empty, if◌then◌else◌,
}
use pg_live_sync.Errclass.{errorf, Result, ok, err}

abbrev pub event_version : ℕ
event_version = 1

pub data Operation : Type 0 where
  insert_op update_op delete_op truncate_op : Operation
  -- any other text that a record of the topic may hold
  other_op : String → Operation

-- `none` is SQL NULL.
abbrev pub Row : Type 0
Row = List (String × Option String)

pub record SourceMetadata : Type 0 where
  pub transaction_id : ℕ
  pub commit_lsn : String
  pub transaction_end_lsn : String
  pub commit_time : ℕ
  pub sequence : ℕ
  pub transaction_event_count : ℕ

pub record Event : Type 0 where
  pub version : ℕ
  pub id : String
  pub schema : String
  pub table : String
  pub operation : Operation
  pub key : Row
  pub before : Row
  pub after : Row
  pub source : SourceMetadata
  pub unchanged_columns : List String

unfoldable pub operation_text : Operation → String
operation_text insert_op = "insert"
operation_text update_op = "update"
operation_text delete_op = "delete"
operation_text truncate_op = "truncate"
operation_text (other_op s) = s

-- The two cases of the switch that need a row.
validate_upsert : Event → Result (Unit {0})
unfolding operation_text
validate_upsert event =
    if is_empty event.key
    then err (errorf "event %s has no key" (event.id ∷ []))
    else if is_empty event.after
    then err
        (errorf "%s event %s has no after row" (operation_text event.operation ∷ event.id ∷ []))
    else ok tt

validate_operation : Operation → Event → Result (Unit {0})
unfolding validate_upsert
validate_operation insert_op event = validate_upsert event
validate_operation update_op event = validate_upsert event
validate_operation delete_op event =
    if is_empty event.key then err (errorf "event %s has no key" (event.id ∷ [])) else ok tt
validate_operation truncate_op event = ok tt
validate_operation (other_op s) event = err (errorf "unsupported operation %q" (s ∷ []))

unfoldable pub validate : Event → Result (Unit {0})
unfolding validate_operation
validate event =
    if event.version == event_version
    then if str_eq event.id "" || str_eq event.schema "" || str_eq event.table ""
      then err (errorf "event id, schema, and table are required" [])
      else validate_operation event.operation event
    else err (errorf "unsupported event version %d" (itoa event.version ∷ []))

key_value : Option (Option String) → String
key_value (some (some value)) = value
key_value _ = "NULL"

key_parts : Row → List String → List String
unfolding key_value
key_parts key [] = []
key_parts key (column ∷ columns) =
    "|" ∷ column ∷ "=" ∷ key_value (lookup column key) ∷ key_parts key columns

-- `KafkaKey`
unfoldable pub kafka_key : Event → String
unfolding key_parts
kafka_key event =
    concat (event.schema ∷ "." ∷ event.table ∷ key_parts event.key (sort_strings (keys event.key)))
