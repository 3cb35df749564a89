-- ===== src/Config/Brokers.antt =====
-- The broker list that `splitAndTrim` (cmd/source-reader/main.go) makes of the configuration.
use Prim.Native.Char.{Char, code}
use pg_live_sync.Prelude.{
  ℕ, ◌==◌, ◌≡◌, ◌≢◌, refl, ap, ◌∙◌, String, str_eq, eq_iff, Bool, true, false, Bool-cases, inl, inr,
  List, [], ◌∷◌, All, if◌then◌else◌, arith,
}
use pg_live_sync.Config.{
  is_space, trim_left, before_trimmed, trim_right, trim_space, put_first, split_on, trimmed_parts,
  split_and_trim,
}

-- No character of the text has this code.
abbrev pub Lacks : ℕ → String → Type 0
Lacks q String.[] = Unit {0}
Lacks q (String.◌∷◌ c s) = (code c == q ≡ false) × Lacks q s

-- Not empty, without a comma, and with no space at either end.
pub record IsClean (text : String) : Type 0 where
  pub filled : text ≢ ""
  pub one_part : Lacks 44 text
  pub trimmed : trim_space text ≡ text

Lacks-trim_left : (q : ℕ) (s : String) → Lacks q s → Lacks q (trim_left s)
unfolding trim_left
Lacks-trim_left q String.[] h = tt
Lacks-trim_left q (String.◌∷◌ c s) h = elim (Bool-cases (is_space (code c))) [
  | inl space ↦ rw space (Lacks-trim_left q s h.1)
  | inr other ↦ rw other h
]

Lacks-before :
    (q : ℕ) (c : Char) (s : String) → code c == q ≡ false → Lacks q s → Lacks q (before_trimmed c s)
unfolding before_trimmed
Lacks-before q c String.[] h k = elim (Bool-cases (is_space (code c))) [
  | inl space ↦ rw space tt
  | inr other ↦ rw other (h, tt)
]
Lacks-before q c (String.◌∷◌ d s) h k = (h, k)

Lacks-trim_right : (q : ℕ) (s : String) → Lacks q s → Lacks q (trim_right s)
unfolding trim_right
Lacks-trim_right q String.[] h = tt
Lacks-trim_right q (String.◌∷◌ c s) h =
    Lacks-before q c (trim_right s) h.0 (Lacks-trim_right q s h.1)

Lacks-trim_space : (q : ℕ) (s : String) → Lacks q s → Lacks q (trim_space s)
unfolding trim_space
Lacks-trim_space q s h = Lacks-trim_right q (trim_left s) (Lacks-trim_left q s h)

-- The first character is not a space.
abbrev starts_clean : String → Bool
starts_clean String.[] = true
starts_clean (String.◌∷◌ c s) = if is_space (code c) then false else true

trim_left-starts_clean : (s : String) → starts_clean (trim_left s) ≡ true
unfolding trim_left
trim_left-starts_clean String.[] = refl
trim_left-starts_clean (String.◌∷◌ c s) = elim (Bool-cases (is_space (code c))) [
  | inl space ↦ rw space (trim_left-starts_clean s)
  | inr other ↦ rw other (rw other refl)
]

before_trimmed-starts :
    (c : Char) (s : String) → is_space (code c) ≡ false → starts_clean (before_trimmed c s) ≡ true
unfolding before_trimmed
before_trimmed-starts c String.[] h = rw h (rw h refl)
before_trimmed-starts c (String.◌∷◌ d s) h = rw h refl

trim_right-starts_clean : (s : String) → starts_clean s ≡ true → starts_clean (trim_right s) ≡ true
unfolding trim_right
trim_right-starts_clean String.[] h = refl
trim_right-starts_clean (String.◌∷◌ c s) h = elim (Bool-cases (is_space (code c))) [
  | inl space ↦ cc (let h' : false ≡ true = rw space at h in h')
  | inr other ↦ before_trimmed-starts c (trim_right s) other
]

trim_left_clean : (s : String) → starts_clean s ≡ true → trim_left s ≡ s
unfolding trim_left
trim_left_clean String.[] h = refl
trim_left_clean (String.◌∷◌ c s) h = ground (arith)

before_trimmed_twice :
    (c : Char) (s : String)
    → trim_right s ≡ s
    → trim_right (before_trimmed c s) ≡ before_trimmed c s
unfolding trim_right before_trimmed
before_trimmed_twice c String.[] h = elim (Bool-cases (is_space (code c))) [
  | inl space ↦ rw space refl
  | inr other ↦ rw other (rw other refl)
]
before_trimmed_twice c (String.◌∷◌ d s) h = ap (before_trimmed c) h

trim_right_twice : (s : String) → trim_right (trim_right s) ≡ trim_right s
unfolding trim_right
trim_right_twice String.[] = refl
trim_right_twice (String.◌∷◌ c s) = before_trimmed_twice c (trim_right s) (trim_right_twice s)

trim_space_twice : (s : String) → trim_space (trim_space s) ≡ trim_space s
unfolding trim_space
trim_space_twice s =
    ap trim_right (
      trim_left_clean (trim_right (trim_left s))
        (trim_right-starts_clean (trim_left s) (trim_left-starts_clean s)))
    ∙ trim_right_twice (trim_left s)

put_first-Lacks :
    (q : ℕ) (c : Char) (parts : List String)
    → code c == q ≡ false
    → All (Lacks q) parts
    → All (Lacks q) (put_first c parts)
unfolding put_first
put_first-Lacks q c [] h k = ((h, tt), tt)
put_first-Lacks q c (part ∷ parts) h k = ((h, k.0), k.1)

split_on-Lacks : (q : ℕ) (s : String) → All (Lacks q) (split_on q s)
unfolding split_on
split_on-Lacks q String.[] = (tt, tt)
split_on-Lacks q (String.◌∷◌ c s) = elim (Bool-cases (code c == q)) [
  | inl cut ↦ rw cut (tt, split_on-Lacks q s)
  | inr other ↦ rw other (put_first-Lacks q c (split_on q s) other (split_on-Lacks q s))
]

trimmed_parts-IsClean :
    (parts : List String) → All (Lacks 44) parts → All IsClean (trimmed_parts parts)
unfolding trimmed_parts
trimmed_parts-IsClean [] h = tt
trimmed_parts-IsClean (part ∷ parts) h = elim (Bool-cases (str_eq (trim_space part) "")) [
  | inl blank ↦ rw blank (trimmed_parts-IsClean parts h.1)
  | inr filled ↦ rw filled (
    record {
      filled = λ e. absurd (ground (arith, eq_iff (trim_space part) "", e, filled));
      one_part = Lacks-trim_space 44 part h.0;
      trimmed = trim_space_twice part;
    },
    trimmed_parts-IsClean parts h.1,
  )
]

-- Each broker that `splitAndTrim` gives is not empty, has no comma, and has no space at either
-- end, whatever the text of the configuration is.
pub split_and_trim-IsClean : (value : String) → All IsClean (split_and_trim value)
unfolding split_and_trim
split_and_trim-IsClean value = trimmed_parts-IsClean (split_on 44 value) (split_on-Lacks 44 value)
