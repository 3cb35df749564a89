-- ===== src/Destination/Sql/Placeholders.antt =====
-- The placeholders of the statements of internal/destination/applier.go, and their parameters.
use mathlib.Core.List.{append-nil, append_assoc}
use native.Mathlib.Nat.{zero-add, add-zero, suc-add}
use pg_live_sync.Prelude.{
  ℕ, zero, suc, ◌+◌, ◌≡◌, refl, ap, ◌∙◌, String, List, [], ◌∷◌, ◌++◌, arith, length,
}
use pg_live_sync.Destination.Sql.{
  SqlText, Types, sql, placeholder, equations, typed_values, write_columns, excluded,
  build_upsert_sql, build_update_sql, build_insert_sql, build_delete_sql, write_lsn_guard,
}

-- The numbers of the placeholders, in the order of the text.
unfoldable pub placeholders : SqlText → List ℕ
placeholders [] = []
placeholders (sql s ∷ rest) = placeholders rest
placeholders (placeholder n ∷ rest) = n ∷ placeholders rest

-- i, i + 1, …, n numbers in all
unfoldable pub count_up : ℕ → ℕ → List ℕ
count_up i zero = []
count_up i (suc n) = i ∷ count_up (i + 1) n

placeholders-append : (s t : SqlText) → placeholders (s ++ t) ≡ placeholders s ++ placeholders t
unfolding placeholders
placeholders-append [] t = refl
placeholders-append (sql a ∷ s) t = placeholders-append s t
placeholders-append (placeholder n ∷ s) t = ap (◌∷◌ n) (placeholders-append s t)

placeholders-equations :
    (separator : String) (types : Types) (i : ℕ) (columns : List String)
    → placeholders (equations separator types i columns) ≡ count_up i (length columns)
unfolding placeholders equations count_up
placeholders-equations separator types i [] = refl
placeholders-equations separator types i (c ∷ []) = refl
placeholders-equations separator types i (c ∷ d ∷ cs) =
    ap (◌∷◌ i) (placeholders-equations separator types (i + 1) (d ∷ cs))

placeholders-typed_values :
    (types : Types) (i : ℕ) (columns : List String)
    → placeholders (typed_values types i columns) ≡ count_up i (length columns)
unfolding placeholders typed_values count_up
placeholders-typed_values types i [] = refl
placeholders-typed_values types i (c ∷ []) = refl
placeholders-typed_values types i (c ∷ d ∷ cs) =
    ap (◌∷◌ i) (placeholders-typed_values types (i + 1) (d ∷ cs))

placeholders-write_columns : (columns : List String) → placeholders (write_columns columns) ≡ []
unfolding placeholders write_columns
placeholders-write_columns [] = refl
placeholders-write_columns (c ∷ []) = refl
placeholders-write_columns (c ∷ d ∷ cs) = placeholders-write_columns (d ∷ cs)

placeholders-excluded : (columns : List String) → placeholders (excluded columns) ≡ []
unfolding placeholders excluded
placeholders-excluded [] = refl
placeholders-excluded (c ∷ []) = refl
placeholders-excluded (c ∷ d ∷ cs) = placeholders-excluded (d ∷ cs)

count_up-append : (i n m : ℕ) → count_up i (n + m) ≡ count_up i n ++ count_up (i + n) m
unfolding count_up
count_up-append i zero m = rw (zero-add, add-zero)
count_up-append i (suc n) m = rw suc-add (
    ap (◌∷◌ i)
      (count_up-append (i + 1) n m ∙ ap (λ k. count_up (i + 1) n ++ count_up k m) (omega arith)))

count_two : (n : ℕ) → count_up 1 n ++ (n + 1) ∷ (n + 2) ∷ [] ≡ count_up 1 (n + 2)
unfolding count_up
count_two n =
    let one : 1 + n ≡ n + 1 = omega arith in
    let two : 1 + n + 1 ≡ n + 2 = omega arith in rw (count_up-append, two, one)

count_one : (n : ℕ) → count_up 1 n ++ (n + 1) ∷ [] ≡ count_up 1 (n + 1)
unfolding count_up
count_one n = let one : 1 + n ≡ n + 1 = omega arith in rw (count_up-append, one)

count_update :
    (n k : ℕ) (rest : List ℕ)
    → count_up 1 n ++ (n + 1) ∷ (n + 2) ∷ (count_up (n + 3) k ++ rest)
      ≡ count_up 1 (n + 2 + k) ++ rest
count_update n k rest =
    let shift : 1 + (n + 2) ≡ n + 3 = omega arith in
    rw (count_up-append, shift, ← count_two) (simp append_assoc)

-- The upsert and the plain insert use $1 to $(n+2) once each and in order, for n columns.
pub placeholders-build_upsert_sql :
    (table : String) (columns key_columns : List String) (types : Types)
    → placeholders (build_upsert_sql table columns key_columns types)
      ≡ count_up 1 (length columns + 2)
unfolding build_upsert_sql placeholders
placeholders-build_upsert_sql table columns key_columns types =
    simp
      (
        placeholders-append, placeholders-typed_values, placeholders-write_columns,
        placeholders-excluded, append-nil,
      )
      (count_two (length columns))

pub placeholders-build_insert_sql :
    (table : String) (columns : List String) (types : Types)
    → placeholders (build_insert_sql table columns types) ≡ count_up 1 (length columns + 2)
unfolding build_insert_sql placeholders
placeholders-build_insert_sql table columns types =
    simp (placeholders-append, placeholders-write_columns, placeholders-typed_values, append-nil)
      (count_two (length columns))

pub placeholders-build_delete_sql :
    (table : String) (key_columns : List String) (types : Types)
    → placeholders (build_delete_sql table key_columns types) ≡ count_up 1 (length key_columns + 1)
unfolding build_delete_sql placeholders
placeholders-build_delete_sql table key_columns types =
    rw (placeholders-append, placeholders-equations) (count_one (length key_columns))

pub placeholders-build_update_sql :
    (table : String) (columns key_columns : List String) (types : Types)
    → placeholders (build_update_sql table columns key_columns types)
      ≡ count_up 1 (length columns + 2 + length key_columns) ++ (length columns + 1) ∷ []
unfolding build_update_sql placeholders write_lsn_guard
placeholders-build_update_sql table columns key_columns types =
    rw (placeholders-append, placeholders-equations, placeholders-append, placeholders-equations)
      (count_update (length columns) (length key_columns) ((length columns + 1) ∷ []))
