-- ===== src/Base/Effects.antt =====
-- Results, and actions that read and write a state and may raise. What an action wrote before it
-- raised stays written: a rollback is its caller's.
use mathlib.Core.Path.{◌≡◌, refl}
use mathlib.Core.Logic.{◌⊎◌, inl, inr}
use mathlib.Core.Bool.{Bool, true, false}
use native.Mathlib.Omega.{arith}

pub data Result {ℓ} (E A : Type ℓ) : Type ℓ where
  ok : A → Result E A
  err : E → Result E A

abbrev pub Exec : Type 0 → Type 0 → Type 0 → Type 0
Exec E S A = S → Result E A × S

module _ {E S : Type 0} where
  abbrev pub pure : {A : Type 0} → A → Exec E S A
  pure a s = (ok a, s)

  abbrev pub raise : {A : Type 0} → E → Exec E S A
  raise e s = (err e, s)

  abbrev pub gets : {A : Type 0} → (S → A) → Exec E S A
  gets f s = (ok (f s), s)

  abbrev pub modify : (S → S) → Exec E S (Unit {0})
  modify f s = (ok tt, f s)

  -- `if not test: raise e`
  abbrev pub guard : Bool → E → Exec E S (Unit {0})
  guard true e s = (ok tt, s)
  guard false e s = (err e, s)

  infixl 10 ◌>>=◌ ◌>>◌
  abbrev pub and_then : {A B : Type 0} → Result E A → (A → Exec E S B) → Exec E S B
  and_then (ok a) f s = f a s
  and_then (err e) f s = (err e, s)

  abbrev pub ◌>>=◌ : {A B : Type 0} → Exec E S A → (A → Exec E S B) → Exec E S B
  ◌>>=◌ m f s = and_then (m s).0 f (m s).1

  abbrev pub ◌>>◌ : {A B : Type 0} → Exec E S A → Exec E S B → Exec E S B
  ◌>>◌ m k s = and_then (m s).0 (λ _. k) (m s).1

-- An action keeps a property of the state, whether it returns or raises.
pub record Keeps {E S A : Type 0} (P : S → Type 0) (m : Exec E S A) : Type 0 where
  pub at : (s : S) → P s → P (m s).1

module _ {E S A B : Type 0} (P : S → Type 0) where
  Keeps-and_then :
      (r : Result E A) (f : A → Exec E S B) (s : S)
      → ((a : A) → Keeps P (f a))
      → P s
      → P (and_then r f s).1
  Keeps-and_then (ok a) f s kf h = (kf a).at s h
  Keeps-and_then (err e) f s kf h = h

  pub Keeps-bind :
      (m : Exec E S A) (f : A → Exec E S B)
      → Keeps P m
      → ((a : A) → Keeps P (f a))
      → Keeps P (m >>= f)
  Keeps-bind m f km kf = record { at = λ s h. Keeps-and_then (m s).0 f (m s).1 kf (km.at s h) }

  pub Keeps-seq : (m : Exec E S A) (k : Exec E S B) → Keeps P m → Keeps P k → Keeps P (m >> k)
  Keeps-seq m k km kk = record {
    at = λ s h. Keeps-and_then (m s).0 (λ _. k) (m s).1 (λ _. kk) (km.at s h);
  }

module _ {E S A B : Type 0} where
  -- A sequence that returns: its first part returned, in the state where the second ran.
  pub >>=-eq-ok :
      (m : Exec E S A) (f : A → Exec E S B) (s t : S) {b : B}
      → (m >>= f) s ≡ (ok b, t)
      → (a : A) × (s' : S) × (m s ≡ (ok a, s')) × (f a s' ≡ (ok b, t))
  >>=-eq-ok m f s t {b} h = go (m s).0 (m s).1 refl h
    where
      go :
          (r : Result E A) (s' : S)
          → m s ≡ (r, s')
          → and_then r f s' ≡ (ok b, t)
          → (a : A) × (s' : S) × (m s ≡ (ok a, s')) × (f a s' ≡ (ok b, t))
      go (ok a) s' e k = (a, s', e, k)
      go (err x) s' e k = absurd (ground arith)

  -- A sequence that raises: the first part raised, or it returned and the second raised.
  pub >>=-eq-err :
      (m : Exec E S A) (f : A → Exec E S B) (s t : S) {x : E}
      → (m >>= f) s ≡ (err x, t)
      → (m s ≡ (err x, t)) ⊎ ((a : A) × (s' : S) × (m s ≡ (ok a, s')) × (f a s' ≡ (err x, t)))
  >>=-eq-err m f s t {x} h = go (m s).0 (m s).1 refl h
    where
      go :
          (r : Result E A) (s' : S)
          → m s ≡ (r, s')
          → and_then r f s' ≡ (err x, t)
          → (m s ≡ (err x, t)) ⊎ ((a : A) × (s' : S) × (m s ≡ (ok a, s')) × (f a s' ≡ (err x, t)))
      go (ok a) s' e k = inr (a, s', e, k)
      go (err y) s' e k = inl (ground arith)
