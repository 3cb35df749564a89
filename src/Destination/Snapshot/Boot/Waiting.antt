-- ===== src/Destination/Snapshot/Boot/Waiting.antt =====
-- `WaitForSlot` of internal/destination/snapshot.go ends, and with success only at a slot.
use pg_live_sync.Prelude.{
  ℕ, zero, suc, ◌+◌, ◌*◌, ◌/◌, ◌≤◌, ◌<◌, ◌≡◌, refl, ltb, ltb→lt, if◌then◌else◌, Bool-cases, inl,
  inr, String, Option, none, some, arith,
}
use pg_live_sync.Errclass.{Error, Result, ok, err}
use pg_live_sync.Destination.Snapshot.Boot.{
  Poll, poll_interval, after_wait, after_answer, poll_from, wait_for_slot,
}

-- The wait ended; if without an error, then at a round before the deadline that found the slot.
abbrev pub Ended : ℕ → (ℕ → Poll) → Option (Result (Unit {0})) → Type 0
Ended deadline polls answer =
    (r : Result (Unit {0})) × (answer ≡ some r)
    × (r ≡ ok tt
        → (i : ℕ) × (restart_lsn : String) × ((polls i).answer ≡ ok (some restart_lsn))
          × ((polls i).at < deadline))

module _ (slot : String) (deadline : ℕ) (polls : ℕ → Poll) where
  after_wait-Ended :
      (cancelled : Option Error) (rest : Option (Result (Unit {0})))
      → Ended deadline polls rest
      → Ended deadline polls (after_wait cancelled rest)
  unfolding after_wait
  after_wait-Ended none rest k = k
  after_wait-Ended (some e) rest k = (err e, refl, λ h. cc)

  after_answer-Ended :
      (i : ℕ) (answer : Result (Option String)) (cancelled : Option Error)
      (rest : Option (Result (Unit {0})))
      → (polls i).answer ≡ answer
      → (polls i).at < deadline
      → Ended deadline polls rest
      → Ended deadline polls (after_answer slot answer cancelled rest)
  unfolding after_answer
  after_answer-Ended i (ok (some restart_lsn)) cancelled rest at before k =
      (ok tt, refl, λ h. (i, restart_lsn, at, before))
  after_answer-Ended i (ok none) cancelled rest at before k = after_wait-Ended cancelled rest k
  after_answer-Ended i (err e) cancelled rest at before k = (_, refl, λ h. cc)

  round-Ended :
      (i : ℕ) (late : Error) (rest : Option (Result (Unit {0})))
      → ((polls i).at < deadline → Ended deadline polls rest)
      → Ended deadline polls (
          if ltb (polls i).at deadline
          then after_answer slot (polls i).answer (polls i).cancelled rest
          else some (err late))
  round-Ended i late rest k = elim (Bool-cases (ltb (polls i).at deadline)) [
    | inl before ↦ rw before (
        after_answer-Ended i (polls i).answer (polls i).cancelled rest refl (ltb→lt _ _ before)
          (k (ltb→lt _ _ before)))
    | inr passed ↦ rw passed (err late, refl, λ h. cc)
  ]

  -- With fuel for the time that is left the loop ends.
  poll_from-Ended :
      (timeout i fuel : ℕ)
      → ((k : ℕ) → (polls k).at + poll_interval ≤ (polls (suc k)).at)
      → deadline ≤ (polls i).at + fuel * poll_interval
      → Ended deadline polls (poll_from slot timeout deadline polls i (suc fuel))
  unfolding poll_from
  poll_from-Ended timeout i zero later enough =
      round-Ended i _ none (λ before. absurd (omega (arith, enough, before)))
  poll_from-Ended timeout i (suc fuel) later enough =
      round-Ended i _ (poll_from slot timeout deadline polls (suc i) (suc fuel))
        (λ before. poll_from-Ended timeout (suc i) fuel later (omega (arith, enough, later i)))

-- `WaitForSlot` ends, if the clock goes on by the two seconds of each wait; and if it gives no
-- error, then a query before the deadline found the slot with a restart point.
pub wait_for_slot-Ended :
    (slot : String) (timeout start : ℕ) (connect : Result (Unit {0})) (polls : ℕ → Poll)
    → start ≤ (polls 0).at
    → ((k : ℕ) → (polls k).at + poll_interval ≤ (polls (suc k)).at)
    → Ended (start + timeout) polls (wait_for_slot slot timeout start connect polls)
unfolding wait_for_slot
wait_for_slot-Ended slot timeout start (err e) polls first later = (_, refl, λ h. cc)
wait_for_slot-Ended slot timeout start (ok _) polls first later =
    poll_from-Ended slot (start + timeout) polls timeout 0 (suc (timeout / poll_interval)) later
      (omega (arith, first))
