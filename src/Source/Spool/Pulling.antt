-- ===== src/Source/Spool/Pulling.antt =====
-- The contents of an open transaction and of a pull of internal/source/decoder.go, as one list.
pub mod Lines
pub mod Appending
pub mod Draining
