-- ===== src/Destination/Sql.antt =====
-- The SQL builders of internal/destination/applier.go. A text is kept as its pieces, so that its
-- placeholders `$1`, `$2`, … can be counted; `render` is what the builder's String() returns.
pub mod Placeholders
pub mod Quoting
use Prim.Native.Char.{code}
use pg_live_sync.Prelude.{
  ℕ, suc, ◌+◌, ◌==◌, leb, String, str_eq, Bool, true, false, ◌&&◌, ◌||◌, Option, none, some, List,
  [], ◌∷◌, ◌++◌, length, lookup, concat, itoa, if◌then◌else◌,
}

pub data Piece : Type 0 where
  sql : String → Piece
  -- `$n`
  placeholder : ℕ → Piece

abbrev pub SqlText : Type 0
SqlText = List Piece

-- Column types, by column name.
abbrev pub Types : Type 0
Types = List (String × String)

unfoldable pub render : SqlText → String
render [] = ""
render (sql s ∷ rest) = concat (s ∷ render rest ∷ [])
render (placeholder n ∷ rest) = concat ("$" ∷ itoa n ∷ render rest ∷ [])

-- strings.ReplaceAll(s, c, cc) for one character c
unfoldable pub double_char : ℕ → String → String
double_char q String.[] = String.[]
double_char q (String.◌∷◌ c s) =
    let rest = double_char q s in
    if code c == q then String.◌∷◌ c (String.◌∷◌ c rest) else String.◌∷◌ c rest

unfoldable pub quote_ident : String → String
unfolding double_char
quote_ident name = concat ("\"" ∷ double_char 34 name ∷ "\"" ∷ [])

-- castFor
unfoldable pub cast_for : String → String
cast_for data_type = if str_eq data_type "" then "" else concat ("::" ∷ data_type ∷ [])

-- dataTypes[column]: "" where the map has no such key.
abbrev pub type_of : Types → String → String
type_of types column = elim (lookup column types) [ none ↦ "" | some t ↦ t ]

-- schema.table, quoted
unfoldable pub qualified : String → String → String
unfolding quote_ident
qualified schema table = concat (quote_ident schema ∷ "." ∷ quote_ident table ∷ [])

-- `"column" = $i::type` for each column, numbered on from i.
unfoldable pub equations : String → Types → ℕ → List String → SqlText
equations separator types i [] = []
equations separator types i (column ∷ []) =
    sql (quote_ident column)
    ∷ sql " = "
    ∷ placeholder i
    ∷ sql (cast_for (type_of types column))
    ∷ []
equations separator types i (column ∷ next ∷ columns) =
    sql (quote_ident column)
    ∷ sql " = "
    ∷ placeholder i
    ∷ sql (cast_for (type_of types column))
    ∷ sql separator
    ∷ equations separator types (i + 1) (next ∷ columns)

-- `$i::type` for each column.
unfoldable pub typed_values : Types → ℕ → List String → SqlText
typed_values types i [] = []
typed_values types i (column ∷ []) = placeholder i ∷ sql (cast_for (type_of types column)) ∷ []
typed_values types i (column ∷ next ∷ columns) =
    placeholder i
    ∷ sql (cast_for (type_of types column))
    ∷ sql ", "
    ∷ typed_values types (i + 1) (next ∷ columns)

unfoldable pub write_columns : List String → SqlText
write_columns [] = []
write_columns (column ∷ []) = sql (quote_ident column) ∷ []
write_columns (column ∷ next ∷ columns) =
    sql (quote_ident column) ∷ sql ", " ∷ write_columns (next ∷ columns)

-- `"column" = EXCLUDED."column"` for each column.
unfoldable pub excluded : List String → SqlText
excluded [] = []
excluded (column ∷ []) =
    sql (quote_ident column) ∷ sql " = EXCLUDED." ∷ sql (quote_ident column) ∷ []
excluded (column ∷ next ∷ columns) =
    sql (quote_ident column)
    ∷ sql " = EXCLUDED."
    ∷ sql (quote_ident column)
    ∷ sql ", "
    ∷ excluded (next ∷ columns)

unfoldable pub write_lsn_guard : String → ℕ → SqlText
write_lsn_guard table n =
    sql " AND ("
    ∷ sql table
    ∷ sql ".source_lsn IS NULL OR "
    ∷ sql table
    ∷ sql ".source_lsn <= "
    ∷ placeholder n
    ∷ sql "::pg_lsn)"
    ∷ []

unfoldable pub build_update_sql : String → List String → List String → Types → SqlText
unfolding write_lsn_guard equations
build_update_sql table columns key_columns types =
    let n = length columns in
    sql "UPDATE "
    ∷ sql table
    ∷ sql " SET "
    ∷ (equations ", " types 1 columns
        ++ (sql ", source_lsn = "
            ∷ placeholder (n + 1)
            ∷ sql "::pg_lsn, source_commit_time = "
            ∷ placeholder (n + 2)
            ∷ sql ", replicated_at = now()"
            ∷ sql " WHERE "
            ∷ (equations " AND " types (n + 3) key_columns ++ write_lsn_guard table (n + 1))))

-- The part of an INSERT up to its closing parenthesis.
insert_values : String → List String → Types → SqlText
insert_values table columns types =
    let n = length columns in
    sql "INSERT INTO "
    ∷ sql table
    ∷ sql " ("
    ∷ (write_columns columns
        ++ (sql ", source_lsn, source_commit_time, replicated_at"
            ∷ sql ") VALUES ("
            ∷ (typed_values types 1 columns
                ++ (sql ", " ∷ placeholder (n + 1) ∷ sql "::pg_lsn, " ∷ placeholder (n + 2) ∷ []))))

unfoldable pub build_insert_sql : String → List String → Types → SqlText
unfolding insert_values typed_values write_columns
build_insert_sql table columns types = insert_values table columns types ++ sql ", now())" ∷ []

unfoldable pub build_upsert_sql : String → List String → List String → Types → SqlText
unfolding insert_values typed_values write_columns excluded
build_upsert_sql table columns key_columns types =
    insert_values table columns types
    ++ (sql ", now()) "
        ∷ sql "ON CONFLICT ("
        ∷ (write_columns key_columns
            ++ (sql ") DO UPDATE SET "
                ∷ (excluded columns
                    ++ (sql
                          ", source_lsn = EXCLUDED.source_lsn, source_commit_time = EXCLUDED.source_commit_time, replicated_at = now()"
                        ∷ sql " WHERE "
                        ∷ sql table
                        ∷ sql ".source_lsn IS NULL OR "
                        ∷ sql table
                        ∷ sql ".source_lsn <= EXCLUDED.source_lsn"
                        ∷ [])))))

unfoldable pub build_delete_sql : String → List String → Types → SqlText
unfolding equations
build_delete_sql table key_columns types =
    sql "DELETE FROM "
    ∷ sql table
    ∷ sql " WHERE "
    ∷ (equations " AND " types 1 key_columns
        ++ (sql " AND (source_lsn IS NULL OR source_lsn <= "
            ∷ placeholder (length key_columns + 1)
            ∷ sql "::pg_lsn)"
            ∷ []))

unfoldable pub build_key_where : List String → ℕ → Types → SqlText
unfolding equations
build_key_where key_columns first types = equations " AND " types first key_columns

-- identPattern: ^[A-Za-z_][A-Za-z0-9_]*$
unfoldable pub ident_start : ℕ → Bool
ident_start c = leb b'A' c && leb c b'Z' || leb b'a' c && leb c b'z' || c == b'_'

unfoldable pub ident_rest : String → Bool
unfolding ident_start
ident_rest String.[] = true
ident_rest (String.◌∷◌ c s) =
    (ident_start (code c) || leb b'0' (code c) && leb (code c) b'9') && ident_rest s

unfoldable pub is_ident : String → Bool
unfolding ident_rest
is_ident String.[] = false
is_ident (String.◌∷◌ c s) = ident_start (code c) && ident_rest s
