-- ===== src/Destination/DeadLetters/Transactions.antt =====
-- A destination transaction (begin, deferred rollback, commit) and a statement of its own, as
-- internal/destination/deadletter.go and snapshot.go use them.
use pg_live_sync.Prelude.{◌≡◌, ◌⊎◌, inl, inr, refl, sym, String, List}
use mathlib.Core.Path.{subst}
use pg_live_sync.Errclass.{Error, wrapf, Result, ok, err}
use pg_live_sync.Action.{Action, map_error}
use pg_live_sync.Action.Ends.{Ends, map_error-eq-ok}
use pg_live_sync.Destination.Rows.{Param}
use pg_live_sync.Destination.Database.{Database, Statement}
use pg_live_sync.Destination.Database.Laws.{Laws}
use pg_live_sync.Destination.Columns.{World}
use pg_live_sync.Destination.DeadLetters.{ran, run, close_tx, started, in_tx}

module _ {D : Database} where
  ran-Ends :
      (wrap : Error → Error) (r : Result D.Db) (w : World D)
      → Ends (λ _ w'. r ≡ ok w'.db) (ran D wrap r) w
  unfolding ran
  ran-Ends wrap (ok db) w = record { after = λ h. refl }
  ran-Ends wrap (err e) w = record { after = λ h. cc }

  pub run-Ends :
      (statement : Statement) (parameters : List Param) (wrap : Error → Error) (w : World D)
      → Ends
          (λ _ w'. D.execute statement parameters w.db ≡ ok w'.db)
          (run D statement parameters wrap)
          w
  unfolding run
  run-Ends statement parameters wrap w = record {
    after = λ h. (ran-Ends wrap (D.execute statement parameters w.db) w).after h;
  }

  ran_failed :
      (wrap : Error → Error) (r : Result D.Db) (w : World D) {e : Error}
      → (ran D wrap r w).0 ≡ err e
      → (ran D wrap r w).1 ≡ w
  unfolding ran
  ran_failed wrap (ok db) w h = cc
  ran_failed wrap (err e) w h = refl

  -- A statement that gives an error changes nothing.
  pub run_failed :
      (statement : Statement) (parameters : List Param) (wrap : Error → Error) (w : World D)
      {e : Error}
      → (run D statement parameters wrap w).0 ≡ err e
      → (run D statement parameters wrap w).1 ≡ w
  unfolding run
  run_failed statement parameters wrap w h =
      ran_failed wrap (D.execute statement parameters w.db) w h

module _ {D : Database} (laws : Laws D) where
  module _ (Q : D.Db → Type 0) where
    closed :
        (text : String) (args : List String) (before : D.Db) (r : Result (Unit {0})) (w : World D)
        → (r ≡ ok tt → Q w.db)
        → (close_tx D text args before (r, w)).0 ≡ ok tt
        → Q (close_tx D text args before (r, w)).1.db
    unfolding close_tx
    closed text args before (ok _) w k h =
        subst Q
          (sym (
            laws.commits before w.db
              (map_error-eq-ok (wrapf text args) (D.commit_tx before w.db).0 h)))
          (k refl)
    closed text args before (err e) w k h = cc

    begun-Ends :
        (begin_text commit_text : String) (args : List String) (m : Action (World D) Unit)
        (r : Result (Unit {0})) (w : World D)
        → Ends (λ _ w'. Q w'.db) m w
        → Ends (λ _ w'. Q w'.db) (started D begin_text commit_text args m r) w
    unfolding started
    begun-Ends begin_text commit_text args m (ok _) w e = record {
      after = λ h. closed commit_text args w.db (m w).0 (m w).1 (λ at. e.after at) h;
    }
    begun-Ends begin_text commit_text args m (err x) w e = record { after = λ h. cc }

    -- What a transaction's action ends with is durable, if the commit gives no error.
    pub in_tx-Ends :
        (begin_text commit_text : String) (args : List String) (m : Action (World D) Unit)
        (w : World D)
        → Ends (λ _ w'. Q w'.db) m w
        → Ends (λ _ w'. Q w'.db) (in_tx D begin_text commit_text args m) w
    unfolding in_tx
    in_tx-Ends begin_text commit_text args m w e = record {
      after = (begun-Ends begin_text commit_text args m (D.begin_tx w.db) w e).after;
    }

  not_committed :
      (text : String) (args : List String) (before : D.Db) (done : Result (Unit {0})) (w : World D)
      {e : Error}
      → (D.commit_tx before w.db).0 ≡ done
      → map_error (wrapf text args) done ≡ err e
      → ((D.commit_tx before w.db).1 ≡ before) ⊎ ((D.commit_tx before w.db).1 ≡ w.db)
  not_committed text args before (ok _) w at h = cc
  not_committed text args before (err x) w at h = laws.aborts before w.db at

  module _ (Q : D.Db → Type 0) where
    not_closed :
        (text : String) (args : List String) (before : D.Db) (r : Result (Unit {0})) (w : World D)
        {e : Error}
        → (r ≡ ok tt → Q w.db)
        → (close_tx D text args before (r, w)).0 ≡ err e
        → ((close_tx D text args before (r, w)).1.db ≡ before)
          ⊎ Q (close_tx D text args before (r, w)).1.db
    unfolding close_tx
    not_closed text args before (ok _) w k h = elim (not_committed text args before _ w refl h) [
      | inl none_of_it ↦ inl none_of_it
      | inr all_of_it ↦ inr (subst Q (sym all_of_it) (k refl))
    ]
    not_closed text args before (err x) w k h = inl refl

    not_started :
        (begin_text commit_text : String) (args : List String) (m : Action (World D) Unit)
        (r : Result (Unit {0})) (w : World D) {e : Error}
        → Ends (λ _ w'. Q w'.db) m w
        → (started D begin_text commit_text args m r w).0 ≡ err e
        → ((started D begin_text commit_text args m r w).1.db ≡ w.db)
          ⊎ Q (started D begin_text commit_text args m r w).1.db
    unfolding started
    not_started begin_text commit_text args m (ok _) w k h =
        not_closed commit_text args w.db (m w).0 (m w).1 (λ at. k.after at) h
    not_started begin_text commit_text args m (err x) w k h = inl refl

    -- A transaction that gives an error changes nothing, or, if the error is that of its commit, it
    -- may have done all that it does.
    pub in_tx_failed :
        (begin_text commit_text : String) (args : List String) (m : Action (World D) Unit)
        (w : World D) {e : Error}
        → Ends (λ _ w'. Q w'.db) m w
        → (in_tx D begin_text commit_text args m w).0 ≡ err e
        → ((in_tx D begin_text commit_text args m w).1.db ≡ w.db)
          ⊎ Q (in_tx D begin_text commit_text args m w).1.db
    unfolding in_tx
    in_tx_failed begin_text commit_text args m w k h =
        not_started begin_text commit_text args m (D.begin_tx w.db) w k h
