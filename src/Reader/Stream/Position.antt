-- ===== src/Reader/Stream/Position.antt =====
-- The position that cmd/source-reader/main.go reports to PostgreSQL.
use pg_live_sync.Prelude.{
  ◌≡◌, refl, ℕ, suc, ◌≤◌, ltb, Bool, true, false, Option, none, some, List, [], ◌∷◌, arith,
}
use pg_live_sync.Errclass.{Error, Result, ok, err}
use pg_live_sync.Action.Keeps.{Keeps, Keeps-pure, Keeps-bind}
use pg_live_sync.Retry.{Round, do_retry, default}
use pg_live_sync.Source.Messages.{CommittedTransaction}
use pg_live_sync.Reader.{
  Reader, acknowledge, PublicationResult, PublishWork, Selected, Links, work_taken, context_done,
  result_arrived, status_due, published, failed, send_work, send_standby, apply_publication_result,
  drain_publication_results, reconnected, reconnect, after_result, on_ok, Waiting,
  recover_publication,
}
use pg_live_sync.Reader.Stream.{then_queue}

-- The latest report first: none is above the one after it, nor above the bound.
abbrev pub Descends : ℕ → List ℕ → Type 0
Descends bound [] = Unit
Descends bound (p ∷ ps) = (p ≤ bound) × Descends p ps

-- The position is at least `low`, and the reports made so far never went back nor beyond it.
abbrev pub IsSafe : ℕ → Reader → Type 0
IsSafe low r = (low ≤ r.durable_lsn) × Descends r.durable_lsn r.reported

Descends-mono : (low high : ℕ) (ps : List ℕ) → low ≤ high → Descends low ps → Descends high ps
Descends-mono low high [] h d = tt
Descends-mono low high (p ∷ ps) h (b, d) = (omega (arith, h, b), d)

-- What is reached, if anything is.
abbrev pub Reached {ℓ} : {A : Type ℓ} → (Reader → Type 0) → Option (A × Reader) → Type 0
Reached P none = Unit
Reached P (some (a, r)) = P r

module _ (low : ℕ) where
  acknowledged :
      (transaction : CommittedTransaction) (r : Reader) (behind : Bool)
      → ltb transaction.end_lsn r.durable_lsn ≡ behind
      → IsSafe low r
      → IsSafe low (acknowledge behind transaction r).1
  unfolding acknowledge
  acknowledged transaction r true at h = h
  acknowledged transaction r false at (h, d) =
      let ahead : r.durable_lsn ≤ transaction.end_lsn = ground arith in
      (omega (arith, h, ahead), Descends-mono r.durable_lsn transaction.end_lsn r.reported ahead d)

  apply-IsSafe :
      (result : PublicationResult) (r : Reader)
      → IsSafe low r
      → IsSafe low (apply_publication_result result r).1
  unfolding apply_publication_result
  apply-IsSafe (failed e) r h = h
  apply-IsSafe (published transaction) r h =
      acknowledged transaction r (ltb transaction.end_lsn r.durable_lsn) refl h

  Keeps-apply : (result : PublicationResult) → Keeps (IsSafe low) (apply_publication_result result)
  Keeps-apply result = record { after = apply-IsSafe result }

  pub drain-IsSafe :
      (advanced : Bool) (results : List PublicationResult)
      → Keeps (IsSafe low) (drain_publication_results advanced results)
  unfolding drain_publication_results
  drain-IsSafe advanced [] = Keeps-pure advanced
  drain-IsSafe advanced (result ∷ results) =
      Keeps-bind (apply_publication_result result) (λ _. drain_publication_results true results)
        (Keeps-apply result) (λ _. drain-IsSafe true results)

  pub send_standby-IsSafe :
      (answer : Result (Unit {0})) (r : Reader)
      → IsSafe low r
      → IsSafe low (send_standby answer r).1
  unfolding send_standby
  send_standby-IsSafe (ok _) r (h, d) = (h, (omega arith, d))
  send_standby-IsSafe (err e) r h = h

  reconnected-IsSafe :
      (answer : Result (Unit {0})) (r : Reader) → IsSafe low r → IsSafe low (reconnected answer r).1
  unfolding reconnected
  reconnected-IsSafe (ok _) r h = h
  reconnected-IsSafe (err e) r h = h

  pub reconnect-IsSafe :
      (dial : ℕ → Round) (r : Reader) → IsSafe low r → IsSafe low (reconnect dial r).1
  unfolding reconnect
  reconnect-IsSafe dial r h =
      reconnected-IsSafe (do_retry default "reconnect source replication" dial).0
        (record r { replication_rejoins = suc r.replication_rejoins }) h

  pub recover-IsSafe :
      (ended : Option Error) (dial : ℕ → Round) (r : Reader)
      → IsSafe low r
      → IsSafe low (recover_publication ended dial r).1
  unfolding recover_publication
  recover-IsSafe (some e) dial r h = h
  recover-IsSafe none dial r h =
      reconnect-IsSafe dial (record r { publish_failures = suc r.publish_failures }) h

  -- Waiting for the publisher.
  on_ok-IsSafe :
      (answer : Result (Unit {0}) × Reader) (next : Reader → Waiting)
      → IsSafe low answer.1
      → ((r : Reader) → IsSafe low r → Reached (IsSafe low) (next r))
      → Reached (IsSafe low) (on_ok answer next)
  on_ok-IsSafe (ok _, r) next h k = k r h
  on_ok-IsSafe (err e, r) next h k = h

  module _ (links : Links) where
    after_result-IsSafe :
        (applied : Result (Unit {0}) × Reader) (next : Reader → Waiting)
        → IsSafe low applied.1
        → ((r : Reader) → IsSafe low r → Reached (IsSafe low) (next r))
        → Reached (IsSafe low) (after_result links applied next)
    unfolding after_result
    after_result-IsSafe (ok _, r) next h k =
        on_ok-IsSafe (send_standby links.standby r) next (send_standby-IsSafe links.standby r h) k
    after_result-IsSafe (err e, r) next h k = recover-IsSafe links.ended links.dial r h

    pub send_work-IsSafe :
        (message : PublishWork) (rounds : List Selected) (r : Reader)
        → IsSafe low r
        → Reached (IsSafe low) (send_work links message rounds r)
    unfolding send_work
    send_work-IsSafe message [] r h = tt
    send_work-IsSafe message (work_taken ∷ rounds) r h = h
    send_work-IsSafe message (context_done e ∷ rounds) r h = h
    send_work-IsSafe message (status_due ∷ rounds) r h =
        on_ok-IsSafe (send_standby links.standby r) _ (send_standby-IsSafe links.standby r h)
          (send_work-IsSafe message rounds)
    send_work-IsSafe message (result_arrived result ∷ rounds) r h =
        after_result-IsSafe (apply_publication_result result r) _ (apply-IsSafe result r h)
          (send_work-IsSafe message rounds)

    pub then_queue-IsSafe :
        (next : Reader → Waiting) (waiting : Waiting)
        → Reached (IsSafe low) waiting
        → ((r : Reader) → IsSafe low r → Reached (IsSafe low) (next r))
        → Reached (IsSafe low) (then_queue next waiting)
    unfolding then_queue
    then_queue-IsSafe next none h k = tt
    then_queue-IsSafe next (some answer) h k = on_ok-IsSafe answer next h k
