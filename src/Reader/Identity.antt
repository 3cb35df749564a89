-- ===== src/Reader/Identity.antt =====
-- `discoverIdentity` of cmd/source-reader/main.go: the key columns by which a table's rows are addressed.
use pg_live_sync.Prelude.{String, str_eq, List, [], ◌∷◌, insert, concat, if◌then◌else◌}
use pg_live_sync.Errclass.{errorf, Result, ok, err, ◌>>=◌}

-- A published table, its replica identity, and the columns of its primary key and of the
-- configured index, as the catalog query gives them.
pub record TableIdentity : Type 0 where
  pub schema : String
  pub table : String
  pub mode : String
  pub pk : List String
  pub ri : List String

identity_key : TableIdentity → Result (List String)
identity_key t =
    if str_eq t.mode "n"
    then err (
        errorf
          "unsafe source configuration: table %s has REPLICA IDENTITY NOTHING, so deletes and update keys would be lost"
          (concat (t.schema ∷ "." ∷ t.table ∷ []) ∷ []))
    else if str_eq t.mode "d"
    then ok t.pk
    else if str_eq t.mode "i"
    then ok t.ri
    else if str_eq t.mode "f"
    then ok t.pk
    else err (
        errorf "table %s has unknown replica identity %q"
          (concat (t.schema ∷ "." ∷ t.table ∷ []) ∷ t.mode ∷ []))

usable : TableIdentity → List String → Result (List String)
usable t [] = err (
    errorf
      "unsafe source configuration: table %s has REPLICA IDENTITY %s but no key the pipeline can address rows with"
      (concat (t.schema ∷ "." ∷ t.table ∷ []) ∷ t.mode ∷ []))
usable t (column ∷ columns) = ok (column ∷ columns)

-- The loop of `discoverIdentity` over the rows of its query.
unfoldable pub discover_identity :
    List TableIdentity → List (String × List String) → Result (List (String × List String))
unfolding identity_key usable
discover_identity [] identity = ok identity
discover_identity (t ∷ tables) identity = identity_key t >>= λ key. usable t key >>= λ columns.
    discover_identity tables (insert (concat (t.schema ∷ "." ∷ t.table ∷ [])) columns identity)
