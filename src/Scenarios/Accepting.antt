-- ===== src/Scenarios/Accepting.antt =====
-- The validation of an event that the writer takes.
use pg_live_sync.Prelude.{◌≡◌, ◌↔◌}
use pg_live_sync.Errclass.{ok}
use pg_live_sync.Cdc.{validate}
use pg_live_sync.Cdc.Validity.{IsValid, validate-IsValid}
use pg_live_sync.Scenarios.{first_event}

validate-IsValid_example : (validate first_event ≡ ok tt) ↔ IsValid first_event
validate-IsValid_example = validate-IsValid first_event
