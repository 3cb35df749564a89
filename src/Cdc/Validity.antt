-- ===== src/Cdc/Validity.antt =====
-- `Event.Validate` (internal/cdc/event.go) against what an event has to hold.
use pg_live_sync.Prelude.{
  ◌≡◌, ◌≢◌, refl, ap, ◌↔◌, Bool, true, false, ◌||◌, String, str_eq, eq_iff, List, [], ◌∷◌, is_empty,
  ◌==◌, if◌then◌else◌, arith,
}
use pg_live_sync.Errclass.{Error, Result, ok, err}
use pg_live_sync.Cdc.{
  Event, Operation, insert_op, update_op, delete_op, truncate_op, other_op, validate,
  validate_operation, validate_upsert,
}

-- The parts of the row that an operation needs.
pub data HasRows (event : Event) : Operation → Type 0 where
  insert_rows : event.key ≢ [] → event.after ≢ [] → HasRows event insert_op
  update_rows : event.key ≢ [] → event.after ≢ [] → HasRows event update_op
  delete_rows : event.key ≢ [] → HasRows event delete_op
  truncate_rows : HasRows event truncate_op

pub record IsValid (event : Event) : Type 0 where
  pub versioned : event.version ≡ 1
  pub identified : event.id ≢ ""
  pub schema_named : event.schema ≢ ""
  pub table_named : event.table ≢ ""
  pub rows : HasRows event event.operation

is_empty-false : {A : Type 0} (xs : List A) → is_empty xs ≡ false → xs ≢ []
is_empty-false [] h = cc
is_empty-false (x ∷ xs) h = λ e. cc

not_empty : {A : Type 0} (xs : List A) → xs ≢ [] → is_empty xs ≡ false
not_empty [] h = absurd (h refl)
not_empty (x ∷ xs) h = refl

named : (s : String) → str_eq s "" ≡ false → s ≢ ""
named s at e = absurd (ground (arith, eq_iff s ""))

other_than : (s : String) → s ≢ "" → str_eq s "" ≡ false
other_than s h = ground (arith, eq_iff s "")

refused :
    (b : Bool) (e : Error) {r : Result (Unit {0})}
    → (if b then err e else r) ≡ ok tt
    → (b ≡ false) × (r ≡ ok tt)
refused true e h = cc
refused false e h = (refl, h)

demanded :
    (b : Bool) (e : Error) {r : Result (Unit {0})}
    → (if b then r else err e) ≡ ok tt
    → (b ≡ true) × (r ≡ ok tt)
demanded true e h = (refl, h)
demanded false e h = cc

no_other : (a b : Bool) → (a || b) ≡ false → (a ≡ false) × (b ≡ false)
no_other true b h = cc
no_other false b h = (refl, h)

rows_of :
    (event : Event) (operation : Operation)
    → validate_operation operation event ≡ ok tt
    → HasRows event operation
unfolding validate_operation validate_upsert
rows_of event insert_op h =
    let (k, h') = refused (is_empty event.key) _ h in
    insert_rows (is_empty-false event.key k)
      (is_empty-false event.after (refused (is_empty event.after) _ h').0)
rows_of event update_op h =
    let (k, h') = refused (is_empty event.key) _ h in
    update_rows (is_empty-false event.key k)
      (is_empty-false event.after (refused (is_empty event.after) _ h').0)
rows_of event delete_op h =
    delete_rows (is_empty-false event.key (refused (is_empty event.key) _ h).0)
rows_of event truncate_op h = truncate_rows
rows_of event (other_op s) h = cc

rows_pass :
    (event : Event) {operation : Operation}
    → HasRows event operation
    → validate_operation operation event ≡ ok tt
unfolding validate_operation validate_upsert
rows_pass event (insert_rows key after) =
    rw (not_empty event.key key) (rw (not_empty event.after after))
rows_pass event (update_rows key after) =
    rw (not_empty event.key key) (rw (not_empty event.after after))
rows_pass event (delete_rows key) = rw (not_empty event.key key)
rows_pass event truncate_rows = refl

passed : (event : Event) → validate event ≡ ok tt → IsValid event
unfolding validate
passed event h =
    let (v, h') = demanded (event.version == 1) _ h in
    let (n, h'') = refused _ _ h' in
    let (i, n') =
      no_other (str_eq event.id "" || str_eq event.schema "") (str_eq event.table "") n in
    let (id, schema) = no_other (str_eq event.id "") (str_eq event.schema "") i in
    record {
      versioned = ground arith;
      identified = named event.id id;
      schema_named = named event.schema schema;
      table_named = named event.table n';
      rows = rows_of event event.operation h'';
    }

pass : (event : Event) → IsValid event → validate event ≡ ok tt
unfolding validate
pass event v = rw (ap (λ x. x == 1) v.versioned) (
    rw (other_than event.id v.identified) (
      rw (other_than event.schema v.schema_named)
        (rw (other_than event.table v.table_named) (rows_pass event v.rows))))

-- `Validate` accepts exactly the events of version 1 that have an id, a schema and a table, and
-- the rows that their operation needs: a key and an after row for an insert or an update, a key
-- for a delete. It refuses an operation that is none of the four.
pub validate-IsValid : (event : Event) → (validate event ≡ ok tt) ↔ IsValid event
validate-IsValid event = (passed event, pass event)
