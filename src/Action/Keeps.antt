-- ===== src/Action/Keeps.antt =====
-- Invariants of actions: one rule for each way in which a handler is put together.
use pg_live_sync.Prelude.{Bool, true, false, if◌then◌else◌}
use pg_live_sync.Errclass.{Error, Result, ok, err}
use pg_live_sync.Action.{Action, pure, fail, lift, continue, ◌>>=◌}

-- `P` holds after `m` if it held before, on success and on error.
pub record Keeps {ℓ} {S A : Type ℓ} (P : S → Type ℓ) (m : Action S A) : Type ℓ where
  pub after : (before : S) → P before → P (m before).1

module _ {ℓ} {S A : Type ℓ} {P : S → Type ℓ} where
  pub Keeps-fail : (why : Error) → Keeps P (fail {A = A} why)
  Keeps-fail why = record { after = λ s holds. holds }

  pub Keeps-lift : (answer : Result A) → Keeps P (lift answer)
  Keeps-lift answer = record { after = λ s holds. holds }

  pub Keeps-pure : (value : A) → Keeps P (pure value)
  Keeps-pure value = record { after = λ s holds. holds }

  pub Keeps-if :
      (b : Bool) (m n : Action S A) → Keeps P m → Keeps P n → Keeps P (if b then m else n)
  Keeps-if true m n k l = k
  Keeps-if false m n k l = l

module _ {ℓ} {S A B : Type ℓ} {P : S → Type ℓ} where
  rest :
      (r : Result A) (f : A → Action S B)
      → ((a : A) → Keeps P (f a))
      → (s : S) → P s
      → P (continue r f s).1
  rest (ok a) f k s h = (k a).after s h
  rest (err e) f k s h = h

  pub Keeps-bind :
      (m : Action S A) (next : A → Action S B)
      → Keeps P m
      → ((value : A) → Keeps P (next value))
      → Keeps P (m >>= next)
  Keeps-bind m f k l = record { after = λ s h. rest (m s).0 f l (m s).1 (k.after s h) }

pub ruleset keeps_rules = (Keeps-pure, Keeps-fail, Keeps-lift, Keeps-if, Keeps-bind)
