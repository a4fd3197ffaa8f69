-- ===== src/Base/Lists.antt =====
-- Lists over the native numbers, and predicates on them by recursion.
use Prim.Native.Nat.{ℕ, zero, suc, ◌+◌, ◌≤◌}
use mathlib.Core.Path.{◌≡◌, refl, subst}
use mathlib.Core.Bool.{Bool, true, false, ◌||◌}
use mathlib.Core.Logic.{inl, inr}
use mathlib.Core.Option.{Option, none, some}
use mathlib.Core.List.{List, [], ◌∷◌, ◌++◌}
use native.Mathlib.Omega.{arith}
use job_ping.Base.Tests.{if◌then◌else◌, Bool-cases}

module _ {ℓ} {A : Type ℓ} where
  abbrev pub length : List A → ℕ
  length [] = 0
  length (x ∷ xs) = suc (length xs)

  pub length-append : (xs ys : List A) → length (xs ++ ys) ≡ length xs + length ys
  length-append [] ys = omega arith
  length-append (x ∷ xs) ys = omega (arith, length-append xs ys)

  -- The comprehension `[x for x in xs if p(x)]`.
  abbrev pub keep : (A → Bool) → List A → List A
  keep p [] = []
  keep p (x ∷ xs) = let rest = keep p xs in if p x then x ∷ rest else rest

  -- The first element that passes, as a query that expects one row.
  abbrev pub find : (A → Bool) → List A → Option A
  find p [] = none
  find p (x ∷ xs) = let rest = find p xs in if p x then some x else rest

  pub length-keep-le : (p : A → Bool) (xs : List A) → length (keep p xs) ≤ length xs
  length-keep-le p [] = omega arith
  length-keep-le p (x ∷ xs) = ground (arith, length-keep-le p xs)

module _ {ℓ κ} {A : Type ℓ} (P : A → Type κ) where
  abbrev pub All : List A → Type κ
  All [] = Unit
  All (x ∷ xs) = P x × All xs

  pub All-append : (xs ys : List A) → All xs → All ys → All (xs ++ ys)
  All-append [] ys hx hy = hy
  All-append (x ∷ xs) ys hx hy = (hx.0, All-append xs ys hx.1 hy)

  pub All-keep : (p : A → Bool) (xs : List A) → All xs → All (keep p xs)
  All-keep p [] h = h
  All-keep p (x ∷ xs) h = ground (arith, All-keep p xs)

-- `any(p(x) for x in xs)`
abbrev pub any {ℓ} : {A : Type ℓ} → (A → Bool) → List A → Bool
any p [] = false
any p (x ∷ xs) = p x || any p xs

pub any-append {ℓ} :
    {A : Type ℓ} (p : A → Bool) (xs ys : List A) → any p (xs ++ ys) ≡ (any p xs || any p ys)
any-append p [] ys = refl
any-append p (x ∷ xs) ys = ground (arith, any-append p xs ys)

-- `xs[:n]`, the LIMIT of a query
unfoldable pub take {ℓ} : {A : Type ℓ} → ℕ → List A → List A
take zero xs = []
take (suc n) [] = []
take (suc n) (x ∷ xs) = x ∷ take n xs

-- ORDER BY, and `sorted`: a stable insertion sort by a test that its first argument may stand first.
unfoldable pub place_by {ℓ} : {A : Type ℓ} → (A → A → Bool) → A → List A → List A
place_by le x [] = x ∷ []
place_by le x (y ∷ ys) = let rest = place_by le x ys in if le x y then x ∷ y ∷ ys else y ∷ rest

unfoldable pub order_by {ℓ} : {A : Type ℓ} → (A → A → Bool) → List A → List A
unfolding place_by
order_by le [] = []
order_by le (x ∷ xs) = place_by le x (order_by le xs)

-- No two members are the same by a test.
module _ {ℓ} {A : Type ℓ} (same : A → A → Bool) where
  abbrev pub Apart : List A → Type 0
  Apart [] = Unit
  Apart (x ∷ xs) = (any (same x) xs ≡ false) × Apart xs

  any-snoc :
      (p : A → Bool) (xs : List A) (y : A)
      → any p xs ≡ false
      → p y ≡ false
      → any p (xs ++ (y ∷ [])) ≡ false
  any-snoc p [] y h k = ground arith
  any-snoc p (x ∷ xs) y h k = ground (arith, any-snoc p xs y)

  pub snoc-Apart :
      (xs : List A) (y : A) → Apart xs → any (λ x. same x y) xs ≡ false → Apart (xs ++ (y ∷ []))
  snoc-Apart [] y h k = (refl, tt)
  snoc-Apart (x ∷ xs) y h k =
      (any-snoc (same x) xs y h.0 (ground arith), snoc-Apart xs y h.1 (ground arith))

module _ {ℓ κ} {A : Type ℓ} (P : A → Type κ) where
  pub All-take : (n : ℕ) (xs : List A) → All P xs → All P (take n xs)
  unfolding take
  All-take zero xs h = tt
  All-take (suc n) [] h = tt
  All-take (suc n) (x ∷ xs) h = (h.0, All-take n xs h.1)

  All-place : (le : A → A → Bool) (x : A) (xs : List A) → P x → All P xs → All P (place_by le x xs)
  unfolding place_by
  All-place le x [] hx h = (hx, tt)
  All-place le x (y ∷ ys) hx h = ground (arith, All-place le x ys)

  pub All-order : (le : A → A → Bool) (xs : List A) → All P xs → All P (order_by le xs)
  unfolding order_by
  All-order le [] h = tt
  All-order le (x ∷ xs) h = All-place le x (order_by le xs) h.0 (All-order le xs h.1)

  uninsert : (le : A → A → Bool) (x : A) (xs : List A) → All P (place_by le x xs) → P x × All P xs
  unfolding place_by
  uninsert le x [] h = (h.0, tt)
  uninsert le x (y ∷ ys) h = ground (arith, uninsert le x ys)

  -- What all of the sorted list have, all of the list have.
  pub All-unorder : (le : A → A → Bool) (xs : List A) → All P (order_by le xs) → All P xs
  unfolding order_by
  All-unorder le [] h = tt
  All-unorder le (x ∷ xs) h =
      let k = uninsert le x (order_by le xs) h in (k.0, All-unorder le xs k.1)

pub All-imp {ℓ κ μ} :
    {A : Type ℓ} (P : A → Type κ) (Q : A → Type μ) (xs : List A)
    → ((x : A) → P x → Q x)
    → All P xs
    → All Q xs
All-imp P Q [] f h = tt
All-imp P Q (x ∷ xs) f h = (f x h.0, All-imp P Q xs f h.1)

some-injective {ℓ} : {A : Type ℓ} {x y : A} → some x ≡ some y → x ≡ y
some-injective h = ground arith

-- What find returns passes its test, and has what all elements have.
pub find-All {ℓ κ} :
    {A : Type ℓ} (P : A → Type κ) (p : A → Bool) (xs : List A) (x : A)
    → All P xs
    → find p xs ≡ some x
    → (p x ≡ true) × P x
find-All P p [] x h k = absurd (ground arith)
find-All P p (y ∷ ys) x h k = elim (Bool-cases (p y)) [
  | inl t ↦
      let same : y ≡ x = some-injective (rw t at k) in
      (subst (λ z. p z ≡ true) same t, subst P same h.0)
  | inr t ↦ find-All P p ys x h.1 (rw t at k)
]
