-- ===== src/Destination/DeadLetters/Listing.antt =====
-- `ListDeadLetters` of internal/destination/deadletter.go.
use pg_live_sync.Prelude.{ℕ, String, str_eq, List, [], ◌∷◌, ◌++◌, if◌then◌else◌}
use pg_live_sync.Errclass.{wrapf}
use pg_live_sync.Action.{Action}
use pg_live_sync.Destination.Sql.{SqlText, sql, placeholder}
use pg_live_sync.Destination.Database.{Database, StoredLetter}
use pg_live_sync.Destination.Columns.{World}
use pg_live_sync.Destination.Queries.{Query, Complaints, read_all}

-- The filters on the schema and the table, and their arguments; an empty text filters nothing.
unfoldable pub filter_arguments : String → String → List String
filter_arguments schema table =
    (if str_eq schema "" then [] else schema ∷ []) ++ (if str_eq table "" then [] else table ∷ [])

table_filter : ℕ → String → SqlText
table_filter n table = if str_eq table "" then [] else sql "table_name = " ∷ placeholder n ∷ []

filters : String → String → SqlText
unfolding table_filter
filters schema table =
    if str_eq schema ""
    then table_filter 1 table
    else sql "schema_name = "
      ∷ placeholder 1
      ∷ (if str_eq table "" then [] else sql " AND " ∷ table_filter 2 table)

unfoldable pub list_sql : String → String → SqlText
unfolding filters
list_sql schema table =
    sql
      "SELECT event_id, schema_name, table_name, operation, source_lsn, source_commit_time, key, before, after, unchanged_columns, reason, occurred_at FROM public.cdc_dead_letters"
    ∷ ((if str_eq schema ""
          then (if str_eq table "" then [] else sql " WHERE " ∷ filters schema table)
          else sql " WHERE " ∷ filters schema table)
        ++ sql " ORDER BY occurred_at" ∷ [])

abbrev pub of_letters : Complaints
of_letters = record {
  querying = wrapf "list dead letters: %w" [];
  scanning = wrapf "scan dead letter: %w" [];
  iterating = wrapf "iterate dead letters: %w" [];
}

-- How the destination answers such a query; a JSONB column that does not decode counts as a failed
-- scan of its row.
abbrev pub LetterQuery : Database → Type 0
LetterQuery D = SqlText → List String → D.Db → Query StoredLetter

module _ (D : Database) (letters : LetterQuery D) where
  unfoldable pub list_dead_letters : String → String → Action (World D) (List StoredLetter)
  unfolding list_sql filter_arguments
  list_dead_letters schema table w = (
    read_all of_letters (letters (list_sql schema table) (filter_arguments schema table) w.db),
    w,
  )
