-- ===== src/Destination/Schema.antt =====
-- `EnsureMetaSchema` of internal/destination/applier.go: the pipeline's own tables.
use pg_live_sync.Prelude.{String, List, [], ◌∷◌}
use pg_live_sync.Errclass.{Error, wrapf}
use pg_live_sync.Action.{Action, pure, ◌>>◌}
use pg_live_sync.Destination.Database.{Database, meta_schema}
use pg_live_sync.Destination.Columns.{World}
use pg_live_sync.Destination.DeadLetters.{run}

-- Line breaks and indentation are left out.
abbrev pub tables : List String
tables =
    "CREATE TABLE IF NOT EXISTS public.cdc_applied_events ( event_id TEXT PRIMARY KEY, source_lsn PG_LSN NOT NULL, applied_at TIMESTAMPTZ NOT NULL DEFAULT now() )"
    ∷ "CREATE TABLE IF NOT EXISTS public.cdc_dead_letters ( event_id TEXT PRIMARY KEY, schema_name TEXT NOT NULL, table_name TEXT NOT NULL, operation TEXT NOT NULL, source_lsn TEXT NOT NULL, source_commit_time TIMESTAMPTZ NOT NULL, key JSONB, before JSONB, after JSONB, unchanged_columns JSONB, reason TEXT NOT NULL, occurred_at TIMESTAMPTZ NOT NULL DEFAULT now() )"
    ∷ "CREATE TABLE IF NOT EXISTS public.cdc_table_watermarks ( table_name TEXT PRIMARY KEY, watermark_lsn PG_LSN NOT NULL, updated_at TIMESTAMPTZ NOT NULL DEFAULT now() )"
    ∷ "CREATE TABLE IF NOT EXISTS public.cdc_state ( key TEXT PRIMARY KEY, value TEXT NOT NULL, updated_at TIMESTAMPTZ NOT NULL DEFAULT now() )"
    ∷ []

abbrev pub migrations : List String
migrations =
    "ALTER TABLE public.cdc_dead_letters ADD COLUMN IF NOT EXISTS before JSONB"
    ∷ "ALTER TABLE public.cdc_dead_letters ADD COLUMN IF NOT EXISTS unchanged_columns JSONB" ∷ []

module _ (D : Database) where
  unfoldable pub run_all : (Error → Error) → List String → Action (World D) Unit
  run_all wrap [] = pure tt
  run_all wrap (statement ∷ statements) = do
    run D (meta_schema statement) [] wrap
    run_all wrap statements

  unfoldable pub ensure_meta_schema : Action (World D) Unit
  unfolding run_all
  ensure_meta_schema = do
    run_all (wrapf "ensure destination metadata schema: %w" []) tables
    run_all (wrapf "migrate destination metadata schema: %w" []) migrations
