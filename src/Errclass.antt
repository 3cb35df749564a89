-- ===== src/Errclass.antt =====
-- internal/errclass/errclass.go: errors as values, and the two questions that decide whether an
-- event is retried or quarantined. The text of an error is kept as its format and arguments.
use pg_live_sync.Prelude.{ℕ, ◌≡◌, refl, String, Bool, true, false, Option, none, some, List}

pub data Error : Type 0 where
  -- fmt.Errorf(format, args...)
  errorf : String → List String → Error
  -- fmt.Errorf(format + "%w", args..., err)
  wrapf : String → List String → Error → Error
  -- a *pgconn.PgError with its SQLSTATE code: the server refused the statement
  pg_error : String → Error
  -- any other failure of a connection, a broker or a context
  transport : String → Error
  -- fmt.Errorf(format + "%v", args..., err): only the text of err, its chain is lost
  shownf : String → List String → Error → Error
  -- *permanent
  permanent_error : Error → Error
  -- *destination.BatchError: the index of the event in its batch, and the error it wraps
  batch_error : ℕ → Error → Error

-- A Go result with an error.
pub data Result {ℓ} (A : Type ℓ) : Type ℓ where
  err : Error → Result A
  ok : A → Result A

module _ {ℓ κ} {A : Type ℓ} {B : Type κ} where
  infixl 5 ◌>>=◌
  -- `if err != nil { return err }`
  abbrev pub ◌>>=◌ : Result A → (A → Result B) → Result B
  err e >>= next = err e
  ok value >>= next = next value

infixl 5 ◌>>◌
abbrev pub ◌>>◌ {ℓ} : {B : Type ℓ} → Result (Unit {0}) → Result B → Result B
check >> next = check >>= λ _. next

-- `Permanent`: nil stays nil.
unfoldable pub permanent : Option Error → Option Error
permanent none = none
permanent (some e) = some (permanent_error e)

-- `Permanentf`
unfoldable pub permanentf : String → List String → Error
permanentf format args = permanent_error (errorf format args)

-- `IsPermanent`: errors.As along the chain of wrapped errors.
unfoldable pub is_permanent : Error → Bool
is_permanent (errorf f a) = false
is_permanent (wrapf f a e) = is_permanent e
is_permanent (pg_error c) = false
is_permanent (shownf f a e) = false
is_permanent (batch_error i e) = is_permanent e
is_permanent (transport m) = false
is_permanent (permanent_error e) = true

-- errors.As(err, &pgErr): the SQLSTATE code of the first server error in the chain.
unfoldable pub pg_code : Error → Option String
pg_code (errorf f a) = none
pg_code (wrapf f a e) = pg_code e
pg_code (pg_error c) = some c
pg_code (transport m) = none
pg_code (shownf f a e) = none
pg_code (batch_error i e) = pg_code e
pg_code (permanent_error e) = pg_code e

-- `PostgresPermanent`
unfoldable pub postgres_permanent : Error → Bool
unfolding pg_code
postgres_permanent e = elim (pg_code e) [ none ↦ false | some c ↦ true ]

-- Inversion of a successful bind.
module _ {ℓ κ} {A : Type ℓ} {B : Type κ} where
  pub >>=-eq-ok :
      (answer : Result A) (next : A → Result B) {final : B}
      → answer >>= next ≡ ok final
      → (value : A) × (answer ≡ ok value) × (next value ≡ ok final)
  >>=-eq-ok (err why) next h = cc
  >>=-eq-ok (ok value) next h = (value, refl, h)

pub ok-injective {ℓ} : {A : Type ℓ} {a b : A} → ok a ≡ ok b → a ≡ b
ok-injective h = cc
