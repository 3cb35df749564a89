-- ===== src/Source.antt =====
-- internal/source/decoder.go: from pgoutput messages to committed transactions and their events.
pub mod Messages
pub mod Tuple
pub mod Spool
pub mod Handle
