-- ===== src/Ingestion/Composition.antt =====
-- That the texts that app/services/hasher.py composes can be read back, so that no two lists of fields give one text.
use mathlib.Core.List.{append_assoc}
use job_ping.Base.{
  ℕ, zero, suc, ◌+◌, ◌-◌, ◌*◌, ◌/◌, ◌%◌, ◌≤◌, ◌<◌, ◌≡◌, refl, inl, inr, true, ◌&&◌, Option, none,
  some, List, [], ◌∷◌, ◌++◌, arith, length, All, All-append, Text, ltb, leb, if◌then◌else◌, ltb→lt,
  Bool-cases, ◌==◌, nat_eq, ap, ◌∙◌,
}
use job_ping.Ingestion.IdentityText.{digits, prefixed, composed, decimal, generate_base_hash}

-- A reader of such texts: a number up to its colon, and that many characters.
unfoldable pub read_number : ℕ → Text → Option (ℕ × Text)
read_number n [] = none
read_number n (c ∷ s) =
    let rest = read_number (n * 10 + (c - 48)) s in
    if c == 58 then some (n, s) else if leb 48 c && leb c 57 then rest else none

unfoldable pub split_at : ℕ → Text → Text × Text
split_at zero s = ([], s)
split_at (suc n) [] = ([], [])
split_at (suc n) (c ∷ s) = (c ∷ (split_at n s).0, (split_at n s).1)

unfoldable pub read_field : Text → Option (Text × Text)
unfolding read_number split_at
read_field s = elim (read_number 0 s) [ none ↦ none | some (n, t) ↦ some (split_at n t) ]

-- As many fields as there are.
unfoldable pub read_fields : ℕ → Text → Option (List Text)
unfolding read_field
read_fields zero s = some []
read_fields (suc k) s = elim (read_field s) [
  | none ↦ none
  | some (f, t) ↦ elim (read_fields k t) [ none ↦ none | some fs ↦ some (f ∷ fs) ]
]

-- The number that digits spell, after those before them.
spelled : ℕ → Text → ℕ
spelled n [] = n
spelled n (c ∷ s) = spelled (n * 10 + (c - 48)) s

spelled-append : (n : ℕ) (s t : Text) → spelled n (s ++ t) ≡ spelled (spelled n s) t
unfolding spelled
spelled-append n [] t = refl
spelled-append n (c ∷ s) t = spelled-append (n * 10 + (c - 48)) s t

abbrev AreDigits : Text → Type 0
AreDigits s = All (λ (c : ℕ). (leb 48 c && leb c 57) ≡ true) s

last_digit : (n : ℕ) → (leb 48 (48 + n % 10) && leb (48 + n % 10) 57) ≡ true
last_digit n = ground arith

digits-AreDigits : (k n : ℕ) → AreDigits (digits k n)
unfolding digits
digits-AreDigits zero n = tt
digits-AreDigits (suc k) n = elim (Bool-cases (ltb n 10)) [
  | inl e ↦ rw e (last_digit n, tt)
  | inr e ↦ rw e (
      All-append (λ (c : ℕ). (leb 48 c && leb c 57) ≡ true) (digits k (n / 10)) ((48 + n % 10) ∷ [])
        (digits-AreDigits k (n / 10)) (last_digit n, tt))
]

spelled-digits : (k n : ℕ) → n < k → spelled 0 (digits k n) ≡ n
unfolding digits spelled
spelled-digits zero n h = absurd (omega arith)
spelled-digits (suc k) n h = elim (Bool-cases (ltb n 10)) [
  | inl e ↦ let l = ltb→lt n 10 e in rw e (omega arith)
  | inr e ↦
      let l : 10 ≤ n = ground arith in
      let ih = spelled-digits k (n / 10) (omega (arith, l, h)) in
      rw (e, spelled-append 0 (digits k (n / 10)) ((48 + n % 10) ∷ []), ih) (omega arith)
]

read_number-digits :
    (n : ℕ) (ds rest : Text)
    → AreDigits ds
    → read_number n (ds ++ (58 ∷ rest)) ≡ some (spelled n ds, rest)
unfolding read_number spelled
read_number-digits n [] rest h = refl
read_number-digits n (c ∷ ds) rest h =
    ground (arith, h.0, read_number-digits (n * 10 + (c - 48)) ds rest h.1)

split_at-length : (s rest : Text) → split_at (length s) (s ++ rest) ≡ (s, rest)
unfolding split_at
split_at-length [] rest = refl
split_at-length (c ∷ s) rest = ground (arith, split_at-length s rest)

read_field-at :
    (s t : Text) (n : ℕ) (r : Text × Text)
    → read_number 0 s ≡ some (n, t)
    → split_at n t ≡ r
    → read_field s ≡ some r
unfolding read_field
read_field-at s t n r e h = ground arith

read_field-prefixed : (f rest : Text) → read_field (prefixed f ++ rest) ≡ some (f, rest)
unfolding prefixed decimal
read_field-prefixed f rest =
    let ds = digits (length f + 1) (length f) in
    let a = read_number-digits 0 ds (f ++ rest) (digits-AreDigits (length f + 1) (length f)) in
    let b : spelled 0 ds ≡ length f = spelled-digits (length f + 1) (length f) (omega arith) in
    let whole : (ds ++ (58 ∷ f)) ++ rest ≡ ds ++ (58 ∷ (f ++ rest)) =
      append_assoc ds (58 ∷ f) rest in
    let k : read_field (ds ++ (58 ∷ (f ++ rest))) ≡ some (f, rest) =
      read_field-at (ds ++ (58 ∷ (f ++ rest))) (f ++ rest) (spelled 0 ds) (f, rest) a
        (ap (λ (n : ℕ). split_at n (f ++ rest)) b ∙ split_at-length f rest) in
    ap read_field whole ∙ k

-- The text that is hashed is read back as its fields, by a reader that takes a number up to a colon and then as many
-- characters.
pub read_fields-composed : (fs : List Text) → read_fields (length fs) (composed fs) ≡ some fs
unfolding read_fields composed
read_fields-composed [] = refl
read_fields-composed (f ∷ fs) =
    ground (arith, read_field-prefixed f (composed fs), read_fields-composed fs)

-- Where two lists of as many fields are composed to one text, they are the same fields.
pub composed_injective :
    (fs gs : List Text) → length fs ≡ length gs → composed fs ≡ composed gs → fs ≡ gs
composed_injective fs gs l e =
    let a = read_fields-composed fs in
    let b = read_fields-composed gs in
    let c : read_fields (length fs) (composed fs) ≡ read_fields (length gs) (composed gs) =
      rw (l, e) refl in
    ground arith

-- Two jobs have one base hash only where their normal fields are the same, if no two texts have one digest.
pub base_hash_separates :
    (normalize sha256 : Text → Text) (c t c' t' : Text)
    → ((a b : Text) → sha256 a ≡ sha256 b → a ≡ b)
    → generate_base_hash normalize sha256 c t ≡ generate_base_hash normalize sha256 c' t'
    → (normalize c ≡ normalize c') × (normalize t ≡ normalize t')
unfolding generate_base_hash
base_hash_separates normalize sha256 c t c' t' inj h =
    let a = normalize c ∷ normalize t ∷ [] in
    let b = normalize c' ∷ normalize t' ∷ [] in
    let e = composed_injective a b refl (inj (composed a) (composed b) h) in
    (ground arith, ground arith)
