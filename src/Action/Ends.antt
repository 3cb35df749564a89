-- ===== src/Action/Ends.antt =====
-- What holds at the end of an action that starts in a given state and succeeds.
use pg_live_sync.Prelude.{◌≡◌, refl, Bool, true, false, if◌then◌else◌}
use pg_live_sync.Errclass.{Error, Result, ok, err}
use pg_live_sync.Action.{Action, fail, lift, map_error, continue, ◌>>=◌}

pub record Ends {ℓ} {S A : Type ℓ} (Q : A → S → Type ℓ) (m : Action S A) (s : S) : Type ℓ where
  pub after : {a : A} → (m s).0 ≡ ok a → Q a (m s).1

module _ {ℓ} {S A B : Type ℓ} {Q : B → S → Type ℓ} where
  rest :
      (r : Result A) (f : A → Action S B) (s : S) {b : B}
      → ((a : A) → r ≡ ok a → Ends Q (f a) s)
      → (continue r f s).0 ≡ ok b
      → Q b (continue r f s).1
  rest (ok a) f s k h = (k a refl).after h
  rest (err e) f s k h = cc

  pub Ends-bind :
      (m : Action S A) (f : A → Action S B) (s : S)
      → ((a : A) → (m s).0 ≡ ok a → Ends Q (f a) (m s).1)
      → Ends Q (m >>= f) s
  Ends-bind m f s k = record { after = λ h. rest (m s).0 f (m s).1 k h }

  pub Ends-check :
      (r : Result A) (f : A → Action S B) (s : S)
      → ((a : A) → r ≡ ok a → Ends Q (f a) s)
      → Ends Q (lift r >>= f) s
  Ends-check r f s k = record { after = λ h. rest r f s k h }

module _ {ℓ} {S A : Type ℓ} {Q : A → S → Type ℓ} where
  pub Ends-lift : (r : Result A) (s : S) → ((a : A) → r ≡ ok a → Q a s) → Ends Q (lift r) s
  Ends-lift r s k = record { after = λ h. k _ h }

  pub Ends-if :
      (b : Bool) (m n : Action S A) (s : S)
      → (b ≡ true → Ends Q m s)
      → (b ≡ false → Ends Q n s)
      → Ends Q (if b then m else n) s
  Ends-if true m n s k l = k refl
  Ends-if false m n s k l = l refl

  pub Ends-fail : (e : Error) (s : S) → Ends Q (fail e) s
  Ends-fail e s = record { after = λ h. cc }

module _ {ℓ} {S A : Type ℓ} {P Q : A → S → Type ℓ} where
  pub Ends-weaken :
      (m : Action S A) (s : S) → Ends P m s → ((a : A) (s' : S) → P a s' → Q a s') → Ends Q m s
  Ends-weaken m s e k = record { after = λ h. k _ _ (e.after h) }

pub map_error-eq-ok {ℓ} :
    {A : Type ℓ} (wrap : Error → Error) (r : Result A) {a : A} → map_error wrap r ≡ ok a → r ≡ ok a
map_error-eq-ok wrap (ok a) h = h
map_error-eq-ok wrap (err e) h = cc
