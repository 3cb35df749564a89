-- ===== src/Action/Runs.antt =====
-- Actions that succeed, with what they give and the state that they leave, taken apart and put
-- together.
use pg_live_sync.Prelude.{◌≡◌, refl, ap, ◌∙◌}
use pg_live_sync.Errclass.{Error, Result, ok, err, ok-injective}
use pg_live_sync.Action.{Action, pure, lift, map_error, continue, ◌>>=◌}
use pg_live_sync.Action.Ends.{map_error-eq-ok}

abbrev pub Runs {ℓ} : {S A : Type ℓ} → Action S A → S → A → S → Type ℓ
Runs m s a s' = m s ≡ (ok a, s')

module _ {ℓ} {S A B : Type ℓ} where
  parts :
      (r : Result A) (s : S) (f : A → Action S B) {b : B} {s' : S}
      → continue r f s ≡ (ok b, s')
      → (a : A) × (r ≡ ok a) × Runs (f a) s b s'
  parts (ok a) s f h = (a, refl, h)
  parts (err e) s f h = cc

  -- A check in front of an action.
  pub Runs-check :
      (r : Result A) (f : A → Action S B) (s : S) {b : B} {s' : S}
      → Runs (lift r >>= f) s b s'
      → (a : A) × (r ≡ ok a) × Runs (f a) s b s'
  Runs-check r f s h = parts r s f h

  pub Runs-checked :
      (r : Result A) (f : A → Action S B) {s s' : S} {a : A} {b : B}
      → r ≡ ok a
      → Runs (f a) s b s'
      → Runs (lift r >>= f) s b s'
  Runs-checked r f {s} checked h = ap (λ (q : Result A). continue q f s) checked ∙ h

  -- A sequence that succeeds is two actions that succeed.
  pub Runs-split :
      (m : Action S A) (f : A → Action S B) (s : S) {b : B} {s' : S}
      → Runs (m >>= f) s b s'
      → (a : A) × (middle : S) × Runs m s a middle × Runs (f a) middle b s'
  Runs-split m f s h =
      let (a, first, second) = parts (m s).0 (m s).1 f h in
      (a, (m s).1, (λ i. (first i, (m s).1)), second)

  pub Runs-join :
      (m : Action S A) (f : A → Action S B) {s middle s' : S} {a : A} {b : B}
      → Runs m s a middle
      → Runs (f a) middle b s'
      → Runs (m >>= f) s b s'
  Runs-join m f first second = ap (λ (p : Result A × S). continue p.0 f p.1) first ∙ second

module _ {ℓ} {S A : Type ℓ} where
  pub pure-Runs : (x : A) (s : S) {a : A} {s' : S} → Runs (pure x) s a s' → (x ≡ a) × (s ≡ s')
  pure-Runs x s h =
      (ok-injective (ap (λ (p : Result A × S). p.0) h), ap (λ (p : Result A × S). p.1) h)

  pub lift-Runs :
      (r : Result A) (s : S) {a : A} {s' : S} → Runs (lift r) s a s' → (r ≡ ok a) × (s ≡ s')
  lift-Runs r s h = (ap (λ (p : Result A × S). p.0) h, ap (λ (p : Result A × S). p.1) h)

  -- The text of an error does not matter where there is none.
  pub map_error-Runs :
      (f : Error → Error) (m : Action S A) (s : S) {a : A} {s' : S}
      → Runs (λ s. (map_error f (m s).0, (m s).1)) s a s'
      → Runs m s a s'
  map_error-Runs f m s h =
      λ i. (map_error-eq-ok f (m s).0 (ap (λ (p : Result A × S). p.0) h) i, (h i).1)
