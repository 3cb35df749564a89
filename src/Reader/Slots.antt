-- ===== src/Reader/Slots.antt =====
-- What cmd/source-reader/main.go asks of the source when it starts, without changing anything:
-- `fenceKey`, `findSlotLSN`, `verifySlotRecoverable` and the query of `discoverIdentity`. The
-- source's answers come in as values.
pub mod Answers
use Prim.Native.Char.{code}
use Prim.Native.Nat.{bit_xor}
use pg_live_sync.Prelude.{
  ℕ, ◌-◌, ◌*◌, ◌%◌, ◌^◌, ltb, String, Bool, true, false, Option, none, some, List, [], ◌∷◌,
  if◌then◌else◌,
}
use pg_live_sync.Prelude.Int.{ℤ, pos, negsuc}
use pg_live_sync.Errclass.{Error, errorf, wrapf, Result, ok, err, ◌>>=◌}
use pg_live_sync.Action.{map_error}
use pg_live_sync.Destination.Upserts.{LsnParser}
use pg_live_sync.Destination.Queries.{Query, Rows, at_end}
use pg_live_sync.Reader.Identity.{TableIdentity, discover_identity}

-- The hash after one more byte, in 64 bits.
unfoldable pub fnv_step : ℕ → ℕ → ℕ
fnv_step hash byte = bit_xor hash byte * 1099511628211 % 2 ^ 64

-- fnv.New64a and its Write, for a text of ASCII characters, as the slot's name is
unfoldable pub fnv64a : ℕ → String → ℕ
unfolding fnv_step
fnv64a hash String.[] = hash
fnv64a hash (String.◌∷◌ c s) = fnv64a (fnv_step hash (code c)) s

-- The conversion of uint64 to int64
unfoldable pub to_int64 : ℕ → ℤ
to_int64 n = if ltb n (2 ^ 63) then pos n else negsuc (2 ^ 64 - n - 1)

-- `fenceKey`
unfoldable pub fence_key : String → ℤ
unfolding fnv64a to_int64
fence_key slot = to_int64 (fnv64a 14695981039346656037 slot)

-- The answers of the source; each function connects on its own.
pub record SourceServer : Type 0 where
  pub fence_connection : Result (Unit {0})
  pub slot_connection : Result (Unit {0})
  pub check_connection : Result (Unit {0})
  pub identity_connection : Result (Unit {0})
  pub creating_connection : Result (Unit {0})
  pub streaming_connection : Result (Unit {0})
  -- pg_try_advisory_lock
  pub try_lock : ℤ → Result Bool
  -- COALESCE(confirmed_flush_lsn, restart_lsn); `none` is ErrNoRows
  pub slot_position : String → Result (Option String)
  pub restart_point : String → Result String
  -- whether the WAL file at a position is still there
  pub wal_kept : String → Result Bool
  pub published_tables : String → Query TableIdentity
  -- CREATE_REPLICATION_SLOT, with its consistent point
  pub create_slot : String → Result String
  -- START_REPLICATION for a slot, from a position on, with the name of the publication
  pub start_replication : String → ℕ → String → Result (Unit {0})

-- pglogrepl.ParseLSN, with the error that is reported
unfoldable pub parsed_position : Error → Option ℕ → Result ℕ
parsed_position e none = err e
parsed_position e (some lsn) = ok lsn

retention : String → String → Result Bool → Result (Unit {0})
retention slot text (err e) = err (wrapf "verify WAL retention for slot %q: %w" (slot ∷ []) e)
retention slot text (ok true) = ok tt
retention slot text (ok false) = err (
    errorf
      "corrupted state: slot %q restart point %s has been recycled away, the required WAL no longer exists; restore the slot or reset the pipeline"
      (slot ∷ text ∷ []))

module _ (server : SourceServer) (parse_lsn : LsnParser) where
  found_position : Option String → Result (Option ℕ)
  unfolding parsed_position
  found_position none = ok none
  found_position (some text) =
      parsed_position (errorf "parse acknowledged slot LSN %q" (text ∷ [])) (parse_lsn text)
      >>= λ lsn. ok (some lsn)

  -- `findSlotLSN`; `none` where there is no such slot
  unfoldable pub find_slot_lsn : String → Result (Option ℕ)
  unfolding found_position
  find_slot_lsn slot =
      map_error (wrapf "connect to PostgreSQL SQL endpoint: %w" []) server.slot_connection >>= λ _.
      map_error (wrapf "read replication slot %q: %w" (slot ∷ [])) (server.slot_position slot)
      >>= found_position

  check_restart_point : String → String → Result (Unit {0})
  unfolding parsed_position retention
  check_restart_point slot text =
      parsed_position (errorf "parse slot %q restart point %q" (slot ∷ text ∷ [])) (parse_lsn text)
      >>= λ lsn. retention slot text (server.wal_kept text)

  -- `verifySlotRecoverable`
  unfoldable pub verify_slot_recoverable : String → Option ℕ → Result (Unit {0})
  unfolding check_restart_point
  verify_slot_recoverable slot none = ok tt
  verify_slot_recoverable slot (some _) =
      map_error (wrapf "connect to PostgreSQL for corruption check: %w" []) server.check_connection
      >>= λ _.
          map_error (wrapf "read slot %q restart point: %w" (slot ∷ [])) (server.restart_point slot)
          >>= check_restart_point slot

abbrev pub Identities : Type 0
Identities = List (String × List String)

-- The rows in turn; the first that cannot be read or used ends the loop.
discover_rows : List (Result TableIdentity) → Identities → Result Identities
discover_rows [] identity = ok identity
discover_rows (row ∷ rows) identity =
    map_error (wrapf "scan published table for replica identity discovery: %w" []) row >>= λ t.
    discover_identity (t ∷ []) identity >>= discover_rows rows

discover_query : Rows TableIdentity → Result Identities
unfolding discover_rows
discover_query rows = discover_rows rows.scanned [] >>= λ identity.
    at_end (wrapf "iterate published tables for replica identity discovery: %w" []) identity
      rows.ended

-- `discoverIdentity`
unfoldable pub discover : SourceServer → String → Result Identities
unfolding discover_query
discover server publication =
    map_error (wrapf "connect to source to discover replica identities: %w" [])
      server.identity_connection
    >>= λ _.
        map_error (wrapf "list published tables for replica identity discovery: %w" [])
          (server.published_tables publication)
        >>= discover_query
