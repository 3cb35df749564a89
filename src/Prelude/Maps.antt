-- ===== src/Prelude/Maps.antt =====
-- A Go map with string keys, as an association list in the order of insertion.
use Prim.Native.String.{String}
use mathlib.Core.Path.{◌≡◌, refl}
use mathlib.Core.Option.{Option, none, some}
use mathlib.Core.List.{List, [], ◌∷◌, map}
use native.Mathlib.Omega.{arith}
use text.Mathlib.Text.{◌==◌ as str_eq}
use text.Mathlib.TextEquality.{eq_iff}
use pg_live_sync.Prelude.Tests.{if◌then◌else◌}

module _ {ℓ} {V : Type ℓ} where
  unfoldable pub lookup : String → List (String × V) → Option V
  lookup key [] = none
  lookup key ((first, value) ∷ rest) = if str_eq first key then some value else lookup key rest

  -- m[key] = value
  unfoldable pub insert : String → V → List (String × V) → List (String × V)
  insert key value [] = (key, value) ∷ []
  insert key value ((first, old) ∷ rest) =
      if str_eq first key then (key, value) ∷ rest else (first, old) ∷ insert key value rest

  -- delete(m, key)
  unfoldable pub delete : String → List (String × V) → List (String × V)
  delete key [] = []
  delete key ((first, value) ∷ rest) =
      if str_eq first key then delete key rest else (first, value) ∷ delete key rest

  abbrev pub keys : List (String × V) → List String
  keys = map (λ entry. entry.0)

  pub lookup-insert :
      (key other : String) (value : V) (entries : List (String × V))
      → lookup other (insert key value entries)
        ≡ (if str_eq key other then some value else lookup other entries)
  unfolding lookup insert
  lookup-insert key other value [] = refl
  lookup-insert key other value ((first, old) ∷ rest) = ground (
    eq_iff first key,
    eq_iff first other,
    eq_iff key other,
    lookup-insert key other value rest,
    arith,
  )

  pub lookup-delete :
      (key other : String) (entries : List (String × V))
      → lookup other (delete key entries)
        ≡ (if str_eq key other then none else lookup other entries)
  unfolding lookup delete
  lookup-delete key other [] = ground arith
  lookup-delete key other ((first, value) ∷ rest) =
      ground (
        eq_iff first key,
        eq_iff first other,
        eq_iff key other,
        lookup-delete key other rest,
        arith,
      )
