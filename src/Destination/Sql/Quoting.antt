-- ===== src/Destination/Sql/Quoting.antt =====
-- `quoteIdent` on the names that `verifyIdent` accepts (internal/destination/applier.go).
use Prim.Native.Char.{code}
use pg_live_sync.Prelude.{
  ℕ, ◌==◌, leb, ◌≡◌, refl, ap, String, true, false, ◌&&◌, ◌||◌, [], ◌∷◌, arith, concat,
}
use pg_live_sync.Destination.Sql.{double_char, quote_ident, is_ident, ident_rest, ident_start}

no_quote : (c : ℕ) → (ident_start c || leb b'0' c && leb c b'9') ≡ true → (c == 34) ≡ false
unfolding ident_start
no_quote c h = ground arith

double_char-rest : (s : String) → ident_rest s ≡ true → double_char 34 s ≡ s
unfolding double_char ident_rest
double_char-rest String.[] h = refl
double_char-rest (String.◌∷◌ c s) h =
    rw (no_quote (code c) (ground arith)) (ap (String.◌∷◌ c) (double_char-rest s (ground arith)))

double_char-ident : (s : String) → is_ident s ≡ true → double_char 34 s ≡ s
unfolding double_char is_ident
double_char-ident String.[] h = refl
double_char-ident (String.◌∷◌ c s) h =
    rw (no_quote (code c) (ground arith)) (ap (String.◌∷◌ c) (double_char-rest s (ground arith)))

-- A name that passes `verifyIdent` is quoted without any change between the quotes, so it cannot
-- end the quoted identifier early.
pub quote_ident_exact :
    (name : String) → is_ident name ≡ true → quote_ident name ≡ concat ("\"" ∷ name ∷ "\"" ∷ [])
unfolding quote_ident
quote_ident_exact name h = rw (double_char-ident name h)
