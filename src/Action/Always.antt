-- ===== src/Action/Always.antt =====
-- What holds of the answer of an action and of the state that it leaves, with or without an error.
use pg_live_sync.Prelude.{◌≡◌, refl}
use pg_live_sync.Errclass.{Error, Result, ok, err}
use pg_live_sync.Action.{Action, continue, ◌>>=◌}

pub record Always {ℓ} {S A : Type ℓ} (Q : Result A → S → Type ℓ) (m : Action S A) (s : S)
    : Type ℓ where
  pub holds : Q (m s).0 (m s).1

module _ {ℓ} {S A B : Type ℓ} {Q : Result B → S → Type ℓ} where
  rest :
      (r : Result A) (f : A → Action S B) (s : S)
      → ((e : Error) → r ≡ err e → Q (err e) s)
      → ((a : A) → r ≡ ok a → Always Q (f a) s)
      → Q (continue r f s).0 (continue r f s).1
  rest (ok a) f s fails goes_on = (goes_on a refl).holds
  rest (err e) f s fails goes_on = fails e refl

  pub Always-bind :
      (m : Action S A) (f : A → Action S B) (s : S)
      → ((e : Error) → (m s).0 ≡ err e → Q (err e) (m s).1)
      → ((a : A) → (m s).0 ≡ ok a → Always Q (f a) (m s).1)
      → Always Q (m >>= f) s
  Always-bind m f s fails goes_on = record { holds = rest (m s).0 f (m s).1 fails goes_on }
