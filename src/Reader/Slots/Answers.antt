-- ===== src/Reader/Slots/Answers.antt =====
-- What the source answered where the checks of cmd/source-reader/main.go on the slot succeed.
use pg_live_sync.Prelude.{
  ℕ, ◌≡◌, refl, ap, ◌∙◌, String, Bool, true, false, Option, none, some, [], ◌∷◌,
}
use pg_live_sync.Errclass.{Error, errorf, Result, ok, err, ok-injective, >>=-eq-ok, ◌>>=◌}
use pg_live_sync.Action.{map_error}
use pg_live_sync.Action.Ends.{map_error-eq-ok}
use pg_live_sync.Destination.Upserts.{LsnParser}
use pg_live_sync.Reader.Slots.{
  SourceServer, parsed_position, retention, found_position, check_restart_point, find_slot_lsn,
  verify_slot_recoverable,
}

pub parsed_position-eq-ok :
    (e : Error) (parsed : Option ℕ) {lsn : ℕ}
    → parsed_position e parsed ≡ ok lsn
    → parsed ≡ some lsn
unfolding parsed_position
parsed_position-eq-ok e none h = cc
parsed_position-eq-ok e (some lsn) h = ap some (ok-injective h)

retained :
    (slot text : String) (answer : Result Bool)
    → retention slot text answer ≡ ok tt
    → answer ≡ ok true
unfolding retention
retained slot text (err e) h = cc
retained slot text (ok true) h = refl
retained slot text (ok false) h = cc

module _ (server : SourceServer) (parse_lsn : LsnParser) where
  abbrev parsed_at : String → Result ℕ
  parsed_at text =
      parsed_position (errorf "parse acknowledged slot LSN %q" (text ∷ [])) (parse_lsn text)

  found-none :
      (position : Option String)
      → found_position server parse_lsn position ≡ ok none
      → position ≡ none
  unfolding found_position
  found-none none h = refl
  found-none (some text) h =
      let (lsn, _, h') = >>=-eq-ok (parsed_at text) (λ lsn. ok (some lsn)) h in cc (ok-injective h')

  found-some :
      (position : Option String) {lsn : ℕ}
      → found_position server parse_lsn position ≡ ok (some lsn)
      → (text : String) × (position ≡ some text) × (parse_lsn text ≡ some lsn)
  unfolding found_position
  found-some none h = cc (ok-injective h)
  found-some (some text) h =
      let (lsn, at, h') = >>=-eq-ok (parsed_at text) (λ lsn. ok (some lsn)) h in
      (text, refl, parsed_position-eq-ok _ (parse_lsn text) at ∙ ok-injective h')

  position_found :
      (slot : String) {found : Option ℕ}
      → find_slot_lsn server parse_lsn slot ≡ ok found
      → (position : Option String) × (server.slot_position slot ≡ ok position)
        × (found_position server parse_lsn position ≡ ok found)
  unfolding find_slot_lsn
  position_found slot h =
      let (_, _, h1) =
        >>=-eq-ok (map_error _ server.slot_connection)
          (λ _. map_error _ (server.slot_position slot) >>= found_position server parse_lsn) h in
      let (position, at, h2) =
        >>=-eq-ok (map_error _ (server.slot_position slot)) (found_position server parse_lsn) h1 in
      (position, map_error-eq-ok _ _ at, h2)

  pub slot_absent :
      (slot : String)
      → find_slot_lsn server parse_lsn slot ≡ ok none
      → server.slot_position slot ≡ ok none
  slot_absent slot h =
      let (position, at, found) = position_found slot h in at ∙ ap ok (found-none position found)

  pub slot_present :
      (slot : String) {lsn : ℕ}
      → find_slot_lsn server parse_lsn slot ≡ ok (some lsn)
      → (text : String) × (server.slot_position slot ≡ ok (some text)) × (parse_lsn text ≡ some lsn)
  slot_present slot h =
      let (position, at, found) = position_found slot h in
      let (text, is, parsed) = found-some position found in (text, at ∙ ap ok is, parsed)

  pub slot_recoverable :
      (slot : String) (lsn : ℕ)
      → verify_slot_recoverable server parse_lsn slot (some lsn) ≡ ok tt
      → (restart : String) × (server.restart_point slot ≡ ok restart)
        × (server.wal_kept restart ≡ ok true)
  unfolding verify_slot_recoverable check_restart_point
  slot_recoverable slot lsn h =
      let (_, _, h1) =
        >>=-eq-ok (map_error _ server.check_connection)
          (λ _.
            map_error _ (server.restart_point slot) >>= check_restart_point server parse_lsn slot)
          h in
      let (restart, needed, h2) =
        >>=-eq-ok (map_error _ (server.restart_point slot))
          (check_restart_point server parse_lsn slot) h1 in
      let (_, _, h3) =
        >>=-eq-ok
          (parsed_position (errorf "parse slot %q restart point %q" (slot ∷ restart ∷ []))
            (parse_lsn restart))
          (λ _. retention slot restart (server.wal_kept restart)) h2 in
      (restart, map_error-eq-ok _ _ needed, retained slot restart _ h3)
