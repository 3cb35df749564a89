-- ===== src/Source/Spool/Pulling/Lines.antt =====
-- The spool file of internal/source/decoder.go as a list of lines.
use pg_live_sync.Prelude.{
  ℕ, zero, suc, ◌==◌, ◌≡◌, refl, false, none, some, List, [], ◌∷◌, ◌++◌, get_elem?, All,
}
use mathlib.Core.List.{append-nil, append_assoc}
use pg_live_sync.Source.Messages.{PendingChange}
use pg_live_sync.Source.Spool.{Codec, read_line}

-- No byte of the text ends a line.
abbrev pub IsOneLine : List ℕ → Type 0
IsOneLine = All (λ b. (b == 10) ≡ false)

-- What encoding/json promises of a change: its text is one line, and is read back as the change.
pub record Encodes (codec : Codec) (change : PendingChange) : Type 0 where
  pub line : List ℕ
  pub marshals : codec.marshal change ≡ some line
  pub one_line : IsOneLine line
  pub unmarshals : codec.unmarshal (line ++ 10 ∷ []) ≡ some change

-- The bytes are the lines of the changes, in order.
pub data Lines (codec : Codec) : List PendingChange → List ℕ → Type 0 where
  end : Lines codec [] []
  line :
      {changes : List PendingChange} {bytes : List ℕ} (change : PendingChange)
      (e : Encodes codec change)
      → Lines codec changes bytes
      → Lines codec (change ∷ changes) ((e.line ++ 10 ∷ []) ++ bytes)

pub read_line_lem :
    (text rest : List ℕ)
    → IsOneLine text
    → read_line ((text ++ 10 ∷ []) ++ rest) ≡ (text ++ 10 ∷ [], rest)
unfolding read_line
read_line_lem [] rest h = refl
read_line_lem (b ∷ text) rest h = rw (h.0, read_line_lem text rest h.1)

pub Lines-append :
    {codec : Codec} {changes : List PendingChange} {bytes : List ℕ} (change : PendingChange)
    (e : Encodes codec change)
    → Lines codec changes bytes
    → Lines codec (changes ++ change ∷ []) (bytes ++ (e.line ++ 10 ∷ []))
Lines-append change e end = rw append-nil at (line change e end)
Lines-append change e (line c f rest) = rw append_assoc (line c f (Lines-append change e rest))

module _ {ℓ} {A : Type ℓ} where
  abbrev pub drop : ℕ → List A → List A
  drop zero xs = xs
  drop (suc n) [] = []
  drop (suc n) (x ∷ xs) = drop n xs

  pub get_elem?-drop :
      (n : ℕ) (xs : List A) {x : A} {rest : List A}
      → drop n xs ≡ x ∷ rest
      → (get_elem? xs n ≡ some x) × (drop (suc n) xs ≡ rest)
  get_elem?-drop zero [] h = cc
  get_elem?-drop zero (y ∷ xs) h = (cc, cc)
  get_elem?-drop (suc n) [] h = cc
  get_elem?-drop (suc n) (y ∷ xs) h = get_elem?-drop n xs h

  pub get_elem?-drop_nil :
      (n : ℕ) (xs : List A) → drop n xs ≡ [] → (get_elem? xs n ≡ none) × (drop (suc n) xs ≡ [])
  get_elem?-drop_nil zero [] h = (refl, refl)
  get_elem?-drop_nil zero (y ∷ xs) h = cc
  get_elem?-drop_nil (suc n) [] h = (refl, refl)
  get_elem?-drop_nil (suc n) (y ∷ xs) h = get_elem?-drop_nil n xs h
