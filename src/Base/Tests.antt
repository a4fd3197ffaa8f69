-- ===== src/Base/Tests.antt =====
-- Boolean tests, the conditional, and equality as an instance argument.
use Prim.Native.Nat.{ℕ, ◌≤◌, ◌<◌, compare, Ordering}
use Prim.Native.String.{String}
use mathlib.Core.Path.{◌≡◌, refl}
use mathlib.Core.Logic.{◌↔◌, ◌⊎◌, inl, inr}
use mathlib.Core.Bool.{Bool, true, false, ◌||◌, Bool-discrete}
use mathlib.Core.Option.{Option, none, some}
use mathlib.Core.List.{List, [], ◌∷◌}
use native.Mathlib.Omega.{arith}
use text.Mathlib.TextEquality.{eq_iff}
use text.Mathlib.Text.{◌==◌ as str_eq}

abbrev pub ltb : ℕ → ℕ → Bool
ltb a b = elim (compare a b) [ Ordering.lt ↦ true | _ ↦ false ]

abbrev pub leb : ℕ → ℕ → Bool
leb a b = elim (compare a b) [ Ordering.gt ↦ false | _ ↦ true ]

abbrev pub nat_beq : ℕ → ℕ → Bool
nat_beq a b = elim (compare a b) [ Ordering.eq ↦ true | _ ↦ false ]

infix 1 if◌then◌else◌
abbrev pub if◌then◌else◌ {ℓ} : {A : Type ℓ} → Bool → A → A → A
if true then x else y = x
if false then x else y = y

pub ltb→lt : (a b : ℕ) → ltb a b ≡ true → a < b
ltb→lt a b h = ground arith

pub lt→ltb : (a b : ℕ) → a < b → ltb a b ≡ true
lt→ltb a b h = ground arith

pub leb→le : (a b : ℕ) → leb a b ≡ true → a ≤ b
leb→le a b h = ground arith

pub le→leb : (a b : ℕ) → a ≤ b → leb a b ≡ true
le→leb a b h = ground arith

pub nat_beq_iff : (a b : ℕ) → (nat_beq a b ≡ true) ↔ (a ≡ b)
nat_beq_iff a b = ground arith

pub ruleset tests = (arith, ltb→lt, lt→ltb, leb→le, le→leb)

pub Bool-cases : (b : Bool) → (b ≡ true) ⊎ (b ≡ false)
Bool-cases true = inl refl
Bool-cases false = inr refl

pub Option-cases {ℓ} : {A : Type ℓ} (o : Option A) → (o ≡ none) ⊎ ((a : A) × (o ≡ some a))
Option-cases none = inl refl
Option-cases (some a) = inr (a, refl)

-- Python's `==` on the types that the program compares.
pub record Eq {κ} (X : Type κ) : Type κ where
  pub equals : X → X → Bool
  pub equals_iff : (x y : X) → (equals x y ≡ true) ↔ (x ≡ y)

instance abbrev pub string_eq : Eq String
string_eq = record { equals = str_eq; equals_iff = eq_iff }

infix 50 ◌==◌
abbrev pub ◌==◌ {κ} : {X : Type κ} ⦃q : Eq X⦄ → X → X → Bool
◌==◌ ⦃q⦄ x y = q.equals x y

instance abbrev pub nat_eq : Eq ℕ
nat_eq = record { equals = nat_beq; equals_iff = nat_beq_iff }

abbrev pub option_beq {κ} : {X : Type κ} → (X → X → Bool) → Option X → Option X → Bool
option_beq f none none = true
option_beq f (some x) (some y) = f x y
option_beq f _ _ = false

pub option_beq_iff {κ} :
    {X : Type κ} ⦃q : Eq X⦄ (x y : Option X) → (option_beq q.equals x y ≡ true) ↔ (x ≡ y)
option_beq_iff none none = ground arith
option_beq_iff none (some y) = ground arith
option_beq_iff (some x) none = ground arith
option_beq_iff ⦃q⦄ (some x) (some y) = ground (arith, q.equals_iff x y)

instance abbrev pub option_eq {κ} : {X : Type κ} ⦃q : Eq X⦄ → Eq (Option X)
option_eq ⦃q⦄ = record { equals = option_beq q.equals; equals_iff = option_beq_iff }

-- `==` of an enumeration, from its decision.
abbrev pub dec_beq {ℓ} : {A : Type ℓ} → Discrete A → A → A → Bool
dec_beq d a b = elim (d a b) [ yes _ ↦ true | no _ ↦ false ]

pub dec_beq_iff {ℓ} : {A : Type ℓ} (d : Discrete A) (a b : A) → (dec_beq d a b ≡ true) ↔ (a ≡ b)
dec_beq_iff d a b = ground arith

abbrev pub discrete_eq {ℓ} : {A : Type ℓ} → Discrete A → Eq A
discrete_eq d = record { equals = dec_beq d; equals_iff = dec_beq_iff d }

-- `value in collection`
unfoldable pub elem {ℓ} : {A : Type ℓ} ⦃e : Eq A⦄ → A → List A → Bool
elem a [] = false
elem a (x ∷ xs) = x == a || elem a xs

instance abbrev pub bool_eq : Eq Bool
bool_eq = discrete_eq Bool-discrete
