-- ===== src/Destination/Batch/InOrder.antt =====
-- The reference for phase 2 of `ApplyBatch` (internal/destination/applier.go): each event's mutation
-- by itself, in order, as `ApplyInTx` runs it.
pub mod Delays
pub mod Mutations
pub mod Deletes
pub mod Upserts
pub mod Agrees
use pg_live_sync.Prelude.{Bool, true, false, List, [], ◌∷◌}
use pg_live_sync.Action.{Action, pure, ◌>>=◌, ◌>>◌}
use pg_live_sync.Cdc.{Event, Operation, insert_op, update_op, delete_op, truncate_op, other_op}
use pg_live_sync.Destination.Database.{Database}
use pg_live_sync.Destination.Columns.{World}
use pg_live_sync.Destination.Apply.{apply_mutation, apply_truncate_batched}
use pg_live_sync.Destination.Upserts.{LsnParser}

module _ (D : Database) (parse_lsn : LsnParser) where
  unfoldable pub settle : Operation → Event → Action (World D) Unit
  settle truncate_op event = apply_truncate_batched D parse_lsn event
  settle insert_op event = apply_mutation D parse_lsn event
  settle update_op event = apply_mutation D parse_lsn event
  settle delete_op event = apply_mutation D parse_lsn event
  settle (other_op s) event = pure tt

  -- The events whose marker is new, one after the other.
  unfoldable pub in_order : List Event → List Bool → Action (World D) Unit
  unfolding settle
  in_order (event ∷ events) (true ∷ fresh) = do settle event.operation event; in_order events fresh
  in_order (event ∷ events) (false ∷ fresh) = in_order events fresh
  in_order _ _ = pure tt
