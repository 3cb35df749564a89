-- ===== src/Destination/Apply/Parameters.antt =====
-- The parameters of an upsert fit its statement (internal/destination/applier.go).
use pg_live_sync.Prelude.{◌+◌, ◌≡◌, length}
use pg_live_sync.Destination.Upserts.{Upsert}

-- The two lists of parameters are as long as their columns ask for.
record Fits (u : Upsert) : Type 0 where
  parameters_fit : length u.parameters ≡ length u.columns + 2
  keys_fit : length u.key_values ≡ length u.key_columns
