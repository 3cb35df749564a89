-- ===== src/Destination/Database/Laws.antt =====
-- What PostgreSQL is documented to do, as far as exactly-once application relies on it.
use pg_live_sync.Prelude.{◌≡◌, ◌⊎◌, String, Bool, true, false, List}
use pg_live_sync.Errclass.{Error, ok, err}
use pg_live_sync.Destination.Rows.{Param}
use pg_live_sync.Destination.Database.{Database, Statement, delete_marker}

-- Every statement but one leaves the rows of cdc_applied_events where they are.
abbrev pub leaves_markers : Statement → Bool
leaves_markers delete_marker = false
leaves_markers _ = true

pub record Laws (D : Database) : Type 0 where
  -- INSERT ... ON CONFLICT DO NOTHING: afterwards the row is there, and no other has gone.
  pub mark_marks :
      (id commit_lsn : String) (db : D.Db) {fresh : Bool} {db' : D.Db}
      → D.mark id commit_lsn db ≡ ok (fresh, db')
      → D.is_marked db' id ≡ true
  pub mark_keeps :
      (id commit_lsn other : String) (db : D.Db) {fresh : Bool} {db' : D.Db}
      → D.mark id commit_lsn db ≡ ok (fresh, db')
      → D.is_marked db other ≡ true
      → D.is_marked db' other ≡ true
  -- A row that is there is not inserted, and nothing changes.
  pub mark_seen :
      (id commit_lsn : String) (db : D.Db) {fresh : Bool} {db' : D.Db}
      → D.is_marked db id ≡ true
      → D.mark id commit_lsn db ≡ ok (fresh, db')
      → (fresh ≡ false) × (db' ≡ db)
  pub execute_keeps :
      (statement : Statement) (parameters : List Param) (id : String) (db : D.Db) {db' : D.Db}
      → leaves_markers statement ≡ true
      → D.execute statement parameters db ≡ ok db'
      → D.is_marked db id ≡ true
      → D.is_marked db' id ≡ true
  -- COMMIT is atomic. Without an error the transaction's contents are durable; with one either all of
  -- them are or none: a connection can be lost before the answer to a COMMIT that succeeded.
  pub commits :
      (before after : D.Db)
      → (D.commit_tx before after).0 ≡ ok tt
      → (D.commit_tx before after).1 ≡ after
  pub aborts :
      (before after : D.Db) {e : Error}
      → (D.commit_tx before after).0 ≡ err e
      → ((D.commit_tx before after).1 ≡ before) ⊎ ((D.commit_tx before after).1 ≡ after)
