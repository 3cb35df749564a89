-- ===== src/Cdcctl/Handlers.antt =====
-- Which dead letters cmd/cdcctl/main.go acts on, and when a replay of many is reported as done.
use pg_live_sync.Prelude.{
  ◌≡◌, ◌≢◌, ◌⊎◌, ◌↔◌, inl, inr, refl, sym, ap, ◌∙◌, String, str_eq, eq_iff, Bool, true, false, not,
  ◌&&◌, List, [], ◌∷◌, ◌++◌, is_empty, Bool-cases, if◌then◌else◌, arith,
}
use pg_live_sync.Errclass.{Error, Result, ok, err, ok-injective, >>=-eq-ok}
use pg_live_sync.Destination.Database.{Database, StoredLetter}
use pg_live_sync.Destination.Columns.{World}
use pg_live_sync.Destination.Upserts.{LsnParser}
use pg_live_sync.Destination.DeadLetters.{replay_dead_letter}
use pg_live_sync.Destination.DeadLetters.Listing.{LetterQuery, list_dead_letters}
use pg_live_sync.Cdcctl.{
  CommandAction, Flags, Command, acts, action_of, split_table, check_target, parse_args, Outcomes,
  noted, replay_each, replay_result, replay_handler, nothing_yet, replay_listed,
}

-- One event by its id, or all that match, and never both.
abbrev pub HasTarget : Flags → Type 0
HasTarget flags =
    ((flags.event_id ≢ "") × (flags.all ≡ false)) ⊎ ((flags.event_id ≡ "") × (flags.all ≡ true))

unnamed_by :
    (action : CommandAction) (flags : Flags) (command : Command)
    → str_eq flags.event_id "" ≡ true
    → ok (record { action = action; flags = flags }) ≡ ok command
    → command.flags.event_id ≡ ""
unnamed_by action flags command u h =
    ap (λ (c : Command). c.flags.event_id) (sym (ok-injective h)) ∙ (eq_iff flags.event_id "").0 u

named_by :
    (action : CommandAction) (flags : Flags) (command : Command)
    → str_eq flags.event_id "" ≡ false
    → ok (record { action = action; flags = flags }) ≡ ok command
    → command.flags.event_id ≢ ""
named_by action flags command u h e =
    let none : flags.event_id ≡ "" = ap (λ (c : Command). c.flags.event_id) (ok-injective h) ∙ e in
    cc (u, (eq_iff flags.event_id "").1 none)

-- The checks, for the answers of their tests.
target_of :
    (action : CommandAction) (flags : Flags) (command : Command) (acting unnamed all : Bool)
    (few many : Error)
    → acts action ≡ acting
    → str_eq flags.event_id "" ≡ unnamed
    → flags.all ≡ all
    → (if acting && unnamed && not all
        then err few
        else if not unnamed && all
        then err many
        else ok (record { action = action; flags = flags }))
      ≡ ok command
    → acts command.action ≡ true
    → HasTarget command.flags
target_of action flags command true true false few many a u l h k = cc
target_of action flags command true false true few many a u l h k = cc
target_of action flags command false false true few many a u l h k = cc
target_of action flags command true true true few many a u l h k = inr (
  unnamed_by action flags command u h,
  ap (λ (c : Command). c.flags.all) (sym (ok-injective h)) ∙ l,
)
target_of action flags command false true true few many a u l h k = inr (
  unnamed_by action flags command u h,
  ap (λ (c : Command). c.flags.all) (sym (ok-injective h)) ∙ l,
)
target_of action flags command true false false few many a u l h k = inl (
  named_by action flags command u h,
  ap (λ (c : Command). c.flags.all) (sym (ok-injective h)) ∙ l,
)
target_of action flags command false false false few many a u l h k = absurd (ground arith)
target_of action flags command false true false few many a u l h k = absurd (ground arith)

target_checked :
    (action : CommandAction) (flags : Flags) (command : Command)
    → check_target action flags ≡ ok command
    → acts command.action ≡ true
    → HasTarget command.flags
unfolding check_target
target_checked action flags command h k =
    target_of action flags command _ _ _ _ _ refl refl refl h k

-- A command line that `parseArgs` accepts for a replay or a drop names one event, or asks for all
-- that match, and not both.
pub parse_args-HasTarget :
    (args : List String) (parse_flags : List String → Result Flags) (command : Command)
    → parse_args args parse_flags ≡ ok command
    → acts command.action ≡ true
    → HasTarget command.flags
unfolding parse_args
parse_args-HasTarget [] parse_flags command h k = cc
parse_args-HasTarget (word ∷ rest) parse_flags command h k =
    let (flags, _, h') = >>=-eq-ok (parse_flags rest) _ h in
    let (action, _, h'') =
      >>=-eq-ok (action_of word) (λ action. check_target action (split_table flags)) h' in
    target_checked action (split_table flags) command h'' k

noted_done :
    (id : String) (r : Result Bool) (outcomes : Outcomes) {applied : Bool}
    → r ≡ ok applied
    → (noted id r outcomes).failed ≡ outcomes.failed
noted_done id (ok applied) outcomes h = refl
noted_done id (err e) outcomes h = cc

not_empty_after : (failed : List String) (id : String) → is_empty (failed ++ id ∷ []) ≡ false
not_empty_after [] id = refl
not_empty_after (first ∷ failed) id = refl

noted_none :
    (id : String) (r : Result Bool) (outcomes : Outcomes)
    → is_empty (noted id r outcomes).failed ≡ true
    → (is_empty outcomes.failed ≡ true) × (applied : Bool) × (r ≡ ok applied)
noted_none id (ok applied) outcomes h = (h, applied, refl)
noted_none id (err e) outcomes h = cc (not_empty_after outcomes.failed id)

done_result :
    (outcomes : Outcomes) → replay_result outcomes ≡ ok tt → is_empty outcomes.failed ≡ true
unfolding replay_result
done_result outcomes h = elim (Bool-cases (is_empty outcomes.failed)) [
  | inl none_failed ↦ none_failed
  | inr some_failed ↦ cc (let h' : err _ ≡ ok tt = rw some_failed at h in h')
]

result_done :
    (outcomes : Outcomes) → is_empty outcomes.failed ≡ true → replay_result outcomes ≡ ok tt
unfolding replay_result
result_done outcomes h = rw h refl

module _ {D : Database} (parse_lsn : LsnParser) (letters : LetterQuery D) where
  -- Each letter in turn is replayed without an error.
  abbrev pub AllReplay : List StoredLetter → World D → Type 0
  AllReplay [] w = Unit {0}
  AllReplay (letter ∷ later) w =
      ((applied : Bool) × ((replay_dead_letter D parse_lsn letter.event_id w).0 ≡ ok applied))
      × AllReplay later (replay_dead_letter D parse_lsn letter.event_id w).1

  each_done :
      (listed : List StoredLetter) (outcomes : Outcomes) (w : World D)
      → AllReplay listed w
      → (replay_each D parse_lsn letters listed outcomes w).0.failed ≡ outcomes.failed
  unfolding replay_each
  each_done [] outcomes w h = refl
  each_done (letter ∷ listed) outcomes w h =
      each_done listed _ (replay_dead_letter D parse_lsn letter.event_id w).1 h.1
      ∙ noted_done letter.event_id (replay_dead_letter D parse_lsn letter.event_id w).0 outcomes
          h.0.1

  each_none :
      (listed : List StoredLetter) (outcomes : Outcomes) (w : World D)
      → is_empty (replay_each D parse_lsn letters listed outcomes w).0.failed ≡ true
      → (is_empty outcomes.failed ≡ true) × AllReplay listed w
  unfolding replay_each
  each_none [] outcomes w h = (h, tt)
  each_none (letter ∷ listed) outcomes w h =
      let (before, later) =
        each_none listed _ (replay_dead_letter D parse_lsn letter.event_id w).1 h in
      let (none_before, applied, done) = noted_none letter.event_id _ outcomes before in
      (none_before, ((applied, done), later))

  listed_done :
      (flags : Flags) (w : World D) (listed : List StoredLetter)
      → str_eq flags.event_id "" ≡ true
      → (list_dead_letters D letters flags.schema flags.table w).0 ≡ ok listed
      → (replay_handler D parse_lsn letters flags w).0 ≡ ok tt
      → AllReplay listed w
  unfolding replay_handler replay_listed
  listed_done flags w listed all found h =
      let tried = (replay_each D parse_lsn letters listed nothing_yet w).0 in
      let result : replay_result tried ≡ ok tt = rw (all, found) at h in
      (each_none listed nothing_yet w (done_result tried result)).1

  -- With -all, `replayHandler` reports success exactly if each of the letters that match was
  -- replayed without an error, one after the other, whatever failures came in between.
  pub replay_handler-AllReplay :
      (flags : Flags) (w : World D) (listed : List StoredLetter)
      → flags.event_id ≡ ""
      → (list_dead_letters D letters flags.schema flags.table w).0 ≡ ok listed
      → ((replay_handler D parse_lsn letters flags w).0 ≡ ok tt) ↔ AllReplay listed w
  unfolding replay_handler replay_listed
  replay_handler-AllReplay flags w listed unnamed found =
      let all = (eq_iff flags.event_id "").1 unnamed in
      (
        λ h. listed_done flags w listed all found h,
        λ replays.
            rw (all, found) (result_done _ (ap is_empty (each_done listed nothing_yet w replays))),
      )
