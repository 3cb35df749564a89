-- ===== src/Destination/Queries.antt =====
-- A query of several rows, and the loop with which the Go code reads its answer: `rows.Next`,
-- `rows.Scan` and `rows.Err`. The rows are those that the driver brings.
use pg_live_sync.Prelude.{◌≡◌, refl, ap, Option, none, some, List, [], ◌∷◌, map}
use pg_live_sync.Errclass.{Error, Result, ok, err, ok-injective}

-- The rows, each with the outcome of its Scan, and the error that ended the iteration.
pub record Rows (A : Type 0) : Type 0 where
  pub scanned : List (Result A)
  pub ended : Option Error

abbrev pub Query : Type 0 → Type 0
Query A = Result (Rows A)

-- What the three errors of a query say.
pub record Complaints : Type 0 where
  pub querying : Error → Error
  pub scanning : Error → Error
  pub iterating : Error → Error

-- The answer when all rows that came are read: rows.Err().
unfoldable pub at_end : {A : Type 0} → (Error → Error) → A → Option Error → Result A
at_end wrap a none = ok a
at_end wrap a (some e) = err (wrap e)

add_row : {A : Type 0} → A → Result (List A) → Result (List A)
add_row a (ok rows) = ok (a ∷ rows)
add_row a (err e) = err e

read_rows : {A : Type 0} → Complaints → List (Result A) → Option Error → Result (List A)
unfolding at_end add_row
read_rows complain [] ended = at_end complain.iterating [] ended
read_rows complain (err e ∷ rows) ended = err (complain.scanning e)
read_rows complain (ok a ∷ rows) ended = add_row a (read_rows complain rows ended)

unfoldable pub read_all : {A : Type 0} → Complaints → Query A → Result (List A)
unfolding read_rows
read_all complain (err e) = err (complain.querying e)
read_all complain (ok rows) = read_rows complain rows.scanned rows.ended

-- A query that is answered in full.
abbrev pub full : {A : Type 0} → List A → Query A
full rows = ok (record { scanned = map ok rows; ended = none })

added :
    {A : Type 0} (a : A) (r : Result (List A)) {rows : List A}
    → add_row a r ≡ ok rows
    → (later : List A) × (r ≡ ok later) × (rows ≡ a ∷ later)
unfolding add_row
added a (ok later) h = (later, refl, cc)
added a (err e) h = cc

ends :
    {A : Type 0} (wrap : Error → Error) (ended : Option Error) {rows : List A}
    → at_end wrap [] ended ≡ ok rows
    → ([] ≡ map ok rows) × (ended ≡ none)
unfolding at_end
ends wrap none h = (ap (map ok) (ok-injective h), refl)
ends wrap (some e) h = cc

read_rows-eq-ok :
    {A : Type 0} (complain : Complaints) (scanned : List (Result A)) (ended : Option Error)
    {rows : List A}
    → read_rows complain scanned ended ≡ ok rows
    → (scanned ≡ map ok rows) × (ended ≡ none)
unfolding read_rows
read_rows-eq-ok complain [] ended h = ends complain.iterating ended h
read_rows-eq-ok complain (err e ∷ scanned) ended h = cc
read_rows-eq-ok complain (ok a ∷ scanned) ended h =
    let (later, at, same) = added a (read_rows complain scanned ended) h in
    let (all, none_left) = read_rows-eq-ok complain scanned ended at in
    (rw same (ap (◌∷◌ (ok a)) all), none_left)

-- A query that is read without an error was answered in full.
pub read_all-eq-ok :
    {A : Type 0} (complain : Complaints) (query : Query A) {rows : List A}
    → read_all complain query ≡ ok rows
    → query ≡ full rows
unfolding read_all
read_all-eq-ok complain (err e) h = cc
read_all-eq-ok complain (ok rows) h =
    let (all, none_left) = read_rows-eq-ok complain rows.scanned rows.ended h in
    ap ok (λ i. record { scanned = all i; ended = none_left i })
