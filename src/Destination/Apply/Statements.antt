-- ===== src/Destination/Apply/Statements.antt =====
-- A statement of an open transaction (`execWithPoison` of internal/destination/applier.go).
use pg_live_sync.Prelude.{◌≡◌, refl, String, List}
use pg_live_sync.Errclass.{Result, ok, err}
use pg_live_sync.Action.Ends.{Ends}
use pg_live_sync.Destination.Rows.{Param}
use pg_live_sync.Destination.Database.{Database, Statement}
use pg_live_sync.Destination.Columns.{World}
use pg_live_sync.Destination.Apply.{executed, exec_with_poison}
use pg_live_sync.Destination.Upserts.{LsnParser}

module _ {D : Database} (parse_lsn : LsnParser) where
  executed-Ends :
      (what : String) (r : Result D.Db) (w : World D)
      → Ends (λ _ w'. r ≡ ok w'.db) (executed D parse_lsn what r) w
  unfolding executed
  executed-Ends what (ok db) w = record { after = λ h. refl }
  executed-Ends what (err e) w = record { after = λ h. cc }

  pub exec-Ends :
      (statement : Statement) (parameters : List Param) (what : String) (w : World D)
      → Ends
          (λ _ w'. D.execute statement parameters w.db ≡ ok w'.db)
          (exec_with_poison D parse_lsn statement parameters what)
          w
  unfolding exec_with_poison
  exec-Ends statement parameters what w = record {
    after = λ h. (executed-Ends what (D.execute statement parameters w.db) w).after h;
  }
