-- ===== src/Reader/Stream/Sending.antt =====
-- `sendWork` and `recoverPublication` (cmd/source-reader/main.go): the message is handed over, or the
-- reader has connected anew, or waits, or gives an error.
use pg_live_sync.Prelude.{
  ◌≡◌, refl, ℕ, suc, ltb, ◌<◌, Bool, true, false, ◌⊎◌, inl, inr, Option, none, some, List, [], ◌∷◌,
  ◌++◌, arith,
}
use pg_live_sync.Errclass.{Error, Result, ok, err}
use pg_live_sync.Retry.{default, do_retry}
use pg_live_sync.Source.Messages.{CommittedTransaction}
use pg_live_sync.Reader.Stream.{then_queue}
use pg_live_sync.Reader.{
  Reader, PublicationResult, PublishWork, Selected, Links, Waiting, published, failed, work_taken,
  result_arrived, status_due, context_done, reconnected, reconnect, recover_publication,
  acknowledge, apply_publication_result, send_standby, on_ok, after_result, send_work,
}

-- The reader has connected to PostgreSQL anew.
abbrev pub Rejoined : Reader → Reader → Type 0
Rejoined r s = r.replication_rejoins < s.replication_rejoins

abbrev pub Handed : PublishWork → Reader → Reader → Type 0
Handed message r s =
    (s.sent ≡ r.sent ++ message ∷ [])
    × (s.decoder ≡ r.decoder)
    × (s.replication_rejoins ≡ r.replication_rejoins)

-- What an answer without an error says of the reader.
unfoldable pub OnSuccess : (Reader → Type 0) → Waiting → Type 0
OnSuccess Q none = Unit
OnSuccess Q (some (err e, s)) = Unit
OnSuccess Q (some (ok _, s)) = Q s

pub OnSuccess-map :
    {P Q : Reader → Type 0} (waiting : Waiting)
    → OnSuccess P waiting
    → ((s : Reader) → P s → Q s)
    → OnSuccess Q waiting
unfolding OnSuccess
OnSuccess-map none h k = tt
OnSuccess-map (some (err e, s)) h k = tt
OnSuccess-map (some (ok _, s)) h k = k s h

pub OnSuccess-then :
    {P : Reader → Type 0} (Q : Reader → Type 0) (next : Reader → Waiting) (waiting : Waiting)
    → OnSuccess P waiting
    → ((s : Reader) → P s → OnSuccess Q (next s))
    → OnSuccess Q (then_queue next waiting)
unfolding OnSuccess then_queue
OnSuccess-then Q next none h k = tt
OnSuccess-then Q next (some (err e, s)) h k = tt
OnSuccess-then Q next (some (ok _, s)) h k = k s h

-- The message was handed over once, after what was sent before, or the reader has connected anew.
abbrev pub Sends : PublishWork → Reader → Waiting → Type 0
Sends message r = OnSuccess (λ s. Rejoined r s ⊎ Handed message r s)

module _ (links : Links) where
  connected :
      (message : PublishWork) (dialled : Result (Unit {0})) (failures : ℕ) (r : Reader)
      → Sends message r (
          some (
            reconnected dialled (record r {
              publish_failures = failures;
              replication_rejoins = suc r.replication_rejoins;
            })))
  unfolding OnSuccess reconnected
  connected message (ok _) failures r = inl (omega arith)
  connected message (err e) failures r = tt

  recovered :
      (message : PublishWork) (ended : Option Error) (r : Reader)
      → Sends message r (some (recover_publication ended links.dial r))
  unfolding OnSuccess recover_publication reconnect
  recovered message (some e) r = tt
  recovered message none r =
      connected message (do_retry default "reconnect source replication" links.dial).0
        (suc r.publish_failures) r

  reported :
      (message : PublishWork) (answer : Result (Unit {0})) (r : Reader) (next : Reader → Waiting)
      → ((positions : List ℕ) → Sends message r (next (record r { reported = positions })))
      → Sends message r (on_ok (send_standby answer r) next)
  unfolding OnSuccess send_standby
  reported message (ok _) r next k = k (r.durable_lsn ∷ r.reported)
  reported message (err e) r next k = tt

  settled :
      (message : PublishWork) (behind : Bool) (transaction : CommittedTransaction) (r : Reader)
      (next : Reader → Waiting)
      → ((s : Reader) → Sends message s (next s))
      → Sends message r (after_result links (acknowledge behind transaction r) next)
  unfolding after_result acknowledge
  settled message true transaction r next k = recovered message links.ended r
  settled message false transaction r next k =
      let s : Reader = record r {
        durable_lsn = transaction.end_lsn;
        transactions_acked = suc r.transactions_acked;
      } in
      reported message links.standby s next (λ positions. k (record s { reported = positions }))

  arrived :
      (message : PublishWork) (result : PublicationResult) (r : Reader) (next : Reader → Waiting)
      → ((s : Reader) → Sends message s (next s))
      → Sends message r (after_result links (apply_publication_result result r) next)
  unfolding after_result apply_publication_result
  arrived message (failed e) r next k = recovered message links.ended r
  arrived message (published transaction) r next k =
      settled message (ltb transaction.end_lsn r.durable_lsn) transaction r next k

  pub send_work-Sends :
      (message : PublishWork) (rounds : List Selected) (r : Reader)
      → Sends message r (send_work links message rounds r)
  unfolding send_work OnSuccess
  send_work-Sends message [] r = tt
  send_work-Sends message (work_taken ∷ rounds) r = inr (refl, refl, refl)
  send_work-Sends message (context_done e ∷ rounds) r = tt
  send_work-Sends message (status_due ∷ rounds) r =
      reported message links.standby r (send_work links message rounds)
        (λ positions. send_work-Sends message rounds (record r { reported = positions }))
  send_work-Sends message (result_arrived result ∷ rounds) r =
      arrived message result r (send_work links message rounds) (send_work-Sends message rounds)
