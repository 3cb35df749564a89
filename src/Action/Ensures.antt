-- ===== src/Action/Ensures.antt =====
-- What holds after an action that succeeds.
use pg_live_sync.Prelude.{◌≡◌, refl}
use mathlib.Core.Path.{subst}
use pg_live_sync.Errclass.{Result, ok, err, ok-injective}
use pg_live_sync.Action.{Action, pure, continue, ◌>>=◌}
use pg_live_sync.Action.Keeps.{Keeps}

-- After `m` from anywhere, if there is no error, `P` holds.
pub record Ensures {ℓ} {S A : Type ℓ} (P : S → Type ℓ) (m : Action S A) : Type ℓ where
  pub after : (s : S) {a : A} → (m s).0 ≡ ok a → P (m s).1

module _ {ℓ} {S A B : Type ℓ} {P : S → Type ℓ} where
  first :
      (r : Result A) (f : A → Action S B) (s : S) {b : B}
      → ((a : A) → r ≡ ok a → P s)
      → ((a : A) → Keeps P (f a))
      → (continue r f s).0 ≡ ok b
      → P (continue r f s).1
  first (ok a) f s h k e = (k a).after s (h a refl)
  first (err x) f s h k e = cc

  -- `m` brings it about and the rest keeps it.
  pub Ensures-first :
      (m : Action S A) (f : A → Action S B)
      → Ensures P m
      → ((a : A) → Keeps P (f a))
      → Ensures P (m >>= f)
  Ensures-first m f h k = record {
    after = λ s e. first (m s).0 f (m s).1 (λ a at. h.after s at) k e;
  }

  later :
      (r : Result A) (f : A → Action S B) (s : S) {b : B}
      → ((a : A) → Ensures P (f a))
      → (continue r f s).0 ≡ ok b
      → P (continue r f s).1
  later (ok a) f s h e = (h a).after s e
  later (err x) f s h e = cc

  -- The rest brings it about.
  pub Ensures-later :
      (m : Action S A) (f : A → Action S B) → ((a : A) → Ensures P (f a)) → Ensures P (m >>= f)
  Ensures-later m f h = record { after = λ s e. later (m s).0 f (m s).1 h e }

module _ {ℓ} {S A : Type ℓ} {P Q : S → Type ℓ} where
  pub Ensures-and : {m : Action S A} → Ensures P m → Ensures Q m → Ensures (λ s. P s × Q s) m
  Ensures-and p q = record { after = λ s e. (p.after s e, q.after s e) }

-- Every answer of `m` satisfies `R`.
pub record Returns {ℓ} {S A : Type ℓ} (R : A → Type ℓ) (m : Action S A) : Type ℓ where
  pub answer : (s : S) {a : A} → (m s).0 ≡ ok a → R a

module _ {ℓ} {S A : Type ℓ} {R : A → Type ℓ} where
  pub Returns-pure : (a : A) → R a → Returns {S = S} R (pure a)
  Returns-pure a r = record { answer = λ s e. subst R (ok-injective e) r }

module _ {ℓ} {S A B : Type ℓ} {R : B → Type ℓ} where
  answered :
      (r : Result A) (f : A → Action S B) (s : S) {b : B}
      → ((a : A) → Returns R (f a))
      → (continue r f s).0 ≡ ok b
      → R b
  answered (ok a) f s h e = (h a).answer s e
  answered (err x) f s h e = cc

  pub Returns-bind :
      (m : Action S A) (f : A → Action S B) → ((a : A) → Returns R (f a)) → Returns R (m >>= f)
  Returns-bind m f h = record { answer = λ s e. answered (m s).0 f (m s).1 h e }

module _ {ℓ} {S A B : Type ℓ} {P : S → Type ℓ} {R : A → Type ℓ} where
  knowing :
      (r : Result A) (f : A → Action S B) (s : S)
      → ((a : A) → r ≡ ok a → R a)
      → ((a : A) → R a → Keeps P (f a))
      → P s
      → P (continue r f s).1
  knowing (ok a) f s h k p = (k a (h a refl)).after s p
  knowing (err x) f s h k p = p

  -- An invariant kept by a continuation that needs to know something of its argument.
  pub Keeps-knowing :
      (m : Action S A) (f : A → Action S B)
      → Keeps P m
      → Returns R m
      → ((a : A) → R a → Keeps P (f a))
      → Keeps P (m >>= f)
  Keeps-knowing m f k r h = record {
    after = λ s p. knowing (m s).0 f (m s).1 (λ a e. r.answer s e) h (k.after s p);
  }

module _ {ℓ} {S A B : Type ℓ} where
  first_answer :
      (r : Result A) (f : A → Action S B) (s : S) {b : B}
      → (continue r f s).0 ≡ ok b
      → (a : A) × (r ≡ ok a)
  first_answer (ok a) f s e = (a, refl)
  first_answer (err x) f s e = cc

  -- An action that gives no error starts with one that gives none.
  pub bind-answer :
      (m : Action S A) (f : A → Action S B) (s : S) {b : B}
      → ((m >>= f) s).0 ≡ ok b
      → (a : A) × ((m s).0 ≡ ok a)
  bind-answer m f s e = first_answer (m s).0 f (m s).1 e
