-- ===== src/Writer/Polling/GivingUp.antt =====
-- A Kafka outage that outlasts the retries of `consume` in cmd/destination-writer/main.go.
use pg_live_sync.Prelude.{
  ◌≡◌, ◌≢◌, ◌⊎◌, inl, inr, refl, ap, ◌∙◌, ℕ, zero, suc, String, Option, none, some, List, [], ◌∷◌,
}
use pg_live_sync.Errclass.{Error, wrapf, Result, ok, err}
use pg_live_sync.Retry.{Config, Round, default, do_from, do_retry}
use pg_live_sync.Destination.Database.{Database}
use pg_live_sync.Writer.{Writer, Services, shutdown}
use pg_live_sync.Writer.Polling.{
  Polled, PollRound, fetch_failure, poll_failure, attempt, after_retry, fetched, records_unless,
  brought, context_error, with_records, poll_loop,
}

-- The poll fails: the context has ended, or there are errors.
abbrev pub Fails : Polled → Type 0
Fails polled = (polled.cancelled ≢ none) ⊎ (polled.errors ≢ [])

failure :
    (cancelled : Option Error) (errors : List Error)
    → (cancelled ≢ none) ⊎ (errors ≢ [])
    → (e : Error) × (poll_failure cancelled errors ≡ some e)
unfolding poll_failure fetch_failure
failure (some ended) errors h = (ended, refl)
failure none (e ∷ errors) h = (_, refl)
failure none [] (inl h) = absurd (h refl)
failure none [] (inr h) = absurd (h refl)

stops_or_goes_on :
    (at : ℕ) (cancelled : Option Error) (later : Result (Unit {0}) × ℕ)
    → (e : Error) × (later.0 ≡ err e)
    → (e : Error) × ((elim cancelled as (λ _. Result (Unit {0}) × ℕ) [
      | none ↦ later
      | some ended ↦ (err ended, at)
    ]).0
        ≡ err e)
stops_or_goes_on at none later h = h
stops_or_goes_on at (some ended) later h = (ended, refl)

-- Retries of which each fails end in an error.
gives_up :
    (c : Config) (operation : String) (meets : ℕ → Round) (at left : ℕ)
    → ((i : ℕ) → (e : Error) × ((meets i).outcome ≡ some e))
    → (e : Error) × ((do_from c operation meets at left).0 ≡ err e)
unfolding do_from
gives_up c operation meets at zero h =
    (wrapf "%s: %w" (operation ∷ []) (h at).0, rw (do_from, (h at).1) refl)
gives_up c operation meets at (suc left) h =
    let (e, same) =
      stops_or_goes_on at (meets at).cancelled (do_from c operation meets (suc at) left)
        (gives_up c operation meets (suc at) left h) in
    (e, rw (do_from, (h at).1) same)

nothing_taken :
    (round : PollRound) (r : Result (Unit {0}) × ℕ) {e : Error}
    → r.0 ≡ err e
    → after_retry round r ≡ none
unfolding after_retry
nothing_taken round (ok _, calls) h = cc
nothing_taken round (err e, calls) h = refl

nothing_brought :
    (round : PollRound) {e : Error} {errors : List Error}
    → round.first.cancelled ≡ none
    → round.first.errors ≡ e ∷ errors
    → ((i : ℕ) → Fails (round.again i))
    → brought round ≡ none
unfolding brought records_unless fetched attempt do_retry
nothing_brought round live failed h =
    ap (records_unless round) live
    ∙ ap (fetched round) failed
    ∙ nothing_taken round (do_retry default "poll Kafka" (attempt round))
        (gives_up default "poll Kafka" (attempt round) 1 19
          (λ i. failure (round.again i).cancelled (round.again i).errors (h i))).1

module _ (D : Database) (V : Services D) where
  -- If a poll and all its retries fail, the writer shuts down, and ends without an error when the
  -- context has not ended.
  pub poll_loop_outage :
      (round : PollRound) (rounds : List PollRound) (s : Writer D) {e : Error} {errors : List Error}
      → round.first.cancelled ≡ none
      → round.first.errors ≡ e ∷ errors
      → ((i : ℕ) → Fails (round.again i))
      → round.ended ≡ none
      → poll_loop D V (round ∷ rounds) s ≡ (some (ok tt), shutdown D V s)
  unfolding poll_loop with_records context_error
  poll_loop_outage round rounds s live failed h still =
      ap (λ found. with_records D V round found s (poll_loop D V rounds))
        (nothing_brought round live failed h)
      ∙ ap (λ ended. (some (context_error ended), shutdown D V s)) still
