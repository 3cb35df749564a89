-- ===== src/Destination.antt =====
-- internal/destination: how events are applied to the destination database.
pub mod Sql
pub mod Rows
pub mod Database
pub mod Columns
pub mod Upserts
pub mod Apply
pub mod Batch
pub mod DeadLetters
pub mod Repair
pub mod Queries
pub mod Snapshot
pub mod Schema
