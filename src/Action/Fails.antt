-- ===== src/Action/Fails.antt =====
-- What holds after an action that starts in a given state and gives an error.
use pg_live_sync.Prelude.{◌≡◌, refl, Bool, true, false, if◌then◌else◌}
use pg_live_sync.Errclass.{Error, Result, ok, err}
use pg_live_sync.Action.{Action, lift, continue, ◌>>=◌}

pub record Fails {ℓ} {S A : Type ℓ} (Q : S → Type ℓ) (m : Action S A) (s : S) : Type ℓ where
  pub after : {e : Error} → (m s).0 ≡ err e → Q (m s).1

module _ {ℓ} {S A B : Type ℓ} {Q : S → Type ℓ} where
  rest :
      (r : Result A) (f : A → Action S B) (s : S) {e : Error}
      → ((e' : Error) → r ≡ err e' → Q s)
      → ((a : A) → r ≡ ok a → Fails Q (f a) s)
      → (continue r f s).0 ≡ err e
      → Q (continue r f s).1
  rest (ok a) f s q k h = (k a refl).after h
  rest (err e) f s q k h = q e refl

  pub Fails-bind :
      (m : Action S A) (f : A → Action S B) (s : S)
      → Fails Q m s
      → ((a : A) → (m s).0 ≡ ok a → Fails Q (f a) (m s).1)
      → Fails Q (m >>= f) s
  Fails-bind m f s q k = record { after = λ h. rest (m s).0 f (m s).1 (λ _ at. q.after at) k h }

  pub Fails-check :
      (r : Result A) (f : A → Action S B) (s : S)
      → Q s
      → ((a : A) → r ≡ ok a → Fails Q (f a) s)
      → Fails Q (lift r >>= f) s
  Fails-check r f s q k = record { after = λ h. rest r f s (λ _ _. q) k h }

module _ {ℓ} {S A : Type ℓ} {Q : S → Type ℓ} where
  pub Fails-lift : (r : Result A) (s : S) → Q s → Fails Q (lift r) s
  Fails-lift r s q = record { after = λ h. q }

  pub Fails-if :
      (b : Bool) (m n : Action S A) (s : S)
      → (b ≡ true → Fails Q m s)
      → (b ≡ false → Fails Q n s)
      → Fails Q (if b then m else n) s
  Fails-if true m n s k l = k refl
  Fails-if false m n s k l = l refl
