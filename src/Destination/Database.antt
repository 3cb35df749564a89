-- ===== src/Destination/Database.antt =====
-- The destination PostgreSQL server, which the program only calls: an interface. A statement of
-- internal/destination is the value of its builder's arguments; `statement_sql` is its text.
pub mod Laws
use pg_live_sync.Prelude.{ℕ, suc, ◌+◌, String, Bool, Option, List, [], ◌∷◌}
use pg_live_sync.Errclass.{Error, Result}
use pg_live_sync.Destination.Sql.{
  Types, SqlText, sql, placeholder, build_upsert_sql, build_update_sql, build_insert_sql,
  build_delete_sql,
}
use pg_live_sync.Cdc.{Operation, Row}
use pg_live_sync.Destination.Queries.{Query}
use pg_live_sync.Destination.Rows.{Param}

pub data Statement : Type 0 where
  upsert : String → List String → List String → Types → Statement
  guarded_update : String → List String → List String → Types → Statement
  plain_insert : String → List String → Types → Statement
  guarded_delete : String → List String → Types → Statement
  truncate_table : String → Statement
  -- the bookkeeping tables
  advance_watermark : String → Statement
  insert_dead_letter : Statement
  delete_dead_letter : Statement
  delete_marker : Statement
  mark_snapshot_done : Statement
  -- a statement of `EnsureMetaSchema`, by its text
  meta_schema : String → Statement

-- The text that is sent for a statement on a mirrored table.
unfoldable pub statement_sql : Statement → SqlText
statement_sql (upsert table columns key_columns types) =
    build_upsert_sql table columns key_columns types
statement_sql (guarded_update table columns key_columns types) =
    build_update_sql table columns key_columns types
statement_sql (plain_insert table columns types) = build_insert_sql table columns types
statement_sql (guarded_delete table key_columns types) = build_delete_sql table key_columns types
statement_sql (truncate_table table) = sql "TRUNCATE TABLE " ∷ sql table ∷ []
statement_sql (advance_watermark table) =
    sql "INSERT INTO public.cdc_table_watermarks (table_name, watermark_lsn) VALUES ("
    ∷ placeholder 1
    ∷ sql ", "
    ∷ placeholder 2
    ∷ sql
        "::pg_lsn) ON CONFLICT (table_name) DO UPDATE SET watermark_lsn = EXCLUDED.watermark_lsn, updated_at = now()"
    ∷ []
statement_sql insert_dead_letter =
    sql
      "INSERT INTO public.cdc_dead_letters (event_id, schema_name, table_name, operation, source_lsn, source_commit_time, key, before, after, unchanged_columns, reason) VALUES ("
    ∷ placeholder 1
    ∷ sql ", "
    ∷ placeholder 2
    ∷ sql ", "
    ∷ placeholder 3
    ∷ sql ", "
    ∷ placeholder 4
    ∷ sql ", COALESCE("
    ∷ placeholder 5
    ∷ sql "::text, ''), "
    ∷ placeholder 6
    ∷ sql ", "
    ∷ placeholder 7
    ∷ sql "::jsonb, "
    ∷ placeholder 8
    ∷ sql "::jsonb, "
    ∷ placeholder 9
    ∷ sql "::jsonb, "
    ∷ placeholder 10
    ∷ sql "::jsonb, "
    ∷ placeholder 11
    ∷ sql ") ON CONFLICT (event_id) DO UPDATE SET reason = EXCLUDED.reason"
    ∷ []
statement_sql delete_dead_letter =
    sql "DELETE FROM public.cdc_dead_letters WHERE event_id = " ∷ placeholder 1 ∷ []
statement_sql delete_marker =
    sql "DELETE FROM public.cdc_applied_events WHERE event_id = " ∷ placeholder 1 ∷ []
statement_sql mark_snapshot_done =
    sql "INSERT INTO public.cdc_state (key, value) VALUES ("
    ∷ placeholder 1
    ∷ sql ", 'done') ON CONFLICT (key) DO UPDATE SET value = 'done', updated_at = now()"
    ∷ []
statement_sql (meta_schema text) = sql text ∷ []

pub record ColumnDef : Type 0 where
  pub name : String
  pub data_type : String

-- A row of cdc_dead_letters. Its JSON columns are kept as the values that they encode.
pub record StoredLetter : Type 0 where
  pub event_id : String
  pub schema_name : String
  pub table_name : String
  pub operation : Operation
  pub source_lsn : String
  pub source_commit_time : ℕ
  pub key : Row
  pub before : Row
  pub after : Row
  pub unchanged_columns : List String
  pub reason : Error

-- `Db` is what the database holds, as a transaction sees it. A query or statement that fails
-- changes nothing that lasts: inside a transaction, the caller rolls it back; a statement outside of
-- one is a transaction of its own, which the server rolls back. Left out is a connection that is
-- lost after such a statement has taken effect and before its answer arrives.
pub record Database : Type 1 where
  pub Db : Type 0
  -- tx.Exec and connection.Exec
  pub execute : Statement → List Param → Db → Result Db
  -- INSERT INTO cdc_applied_events ... ON CONFLICT DO NOTHING; true where a row was inserted
  pub mark : String → String → Db → Result (Bool × Db)
  -- SELECT watermark_lsn::text ...; `none` is ErrNoRows
  pub watermark : String → Db → Result (Option String)
  -- SELECT source_lsn FROM table WHERE key ...; `none` is ErrNoRows
  pub probe : String → List String → Types → List Param → Db → Result (Option (Option String))
  -- the columns of a table, from the catalog
  pub catalog : String → Db → Query ColumnDef
  pub begin_tx : Db → Result (Unit {0})
  -- from the contents before the transaction and those at its end: what is durable afterwards
  pub commit_tx : Db → Db → Result (Unit {0}) × Db
  -- the end of a pgx.Batch
  pub close_batch : Db → Result (Unit {0})
  -- a row of cdc_dead_letters, by event id
  pub dead_letter : String → Db → Result (Option StoredLetter)
  -- an event id is in cdc_applied_events
  pub is_marked : Db → String → Bool
