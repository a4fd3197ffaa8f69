-- ===== src/Applications/Secrets/Strip.antt =====
-- Stripping a text of app/db/repository.py adds no verification secret to it.
use mathlib.Core.Path.{subst}
use mathlib.Core.List.{reverse, reverse-append, reverse-reverse}
use job_ping.Base.{
  ℕ, ◌≡◌, refl, suc, sym, inl, inr, Bool, true, false, ◌||◌, some, List, [], ◌∷◌, ◌++◌, arith, Text,
  is_space, lstrip, rstrip, strip, starts_with, contains, Bool-cases,
}
use job_ping.Applications.Secrets.Codes.{
  Unicode, mentions, has_code, contains_verification_secret, secret_terms,
}
use job_ping.Applications.Secrets.Runs.{has_code_run, digit_runs, has_code-runs}

-- `v` is `w` with white space around it.
pub data Around (w : Text) : Text → Type 0 where
  same : Around w w
  before : {v : Text} (c : ℕ) → is_space c ≡ true → Around w v → Around w (c ∷ v)
  after : {v : Text} (c : ℕ) → is_space c ≡ true → Around w v → Around w (v ++ c ∷ [])

Around-trans : {x w v : Text} → Around x w → Around w v → Around x v
Around-trans a same = a
Around-trans a (before c h b) = before c h (Around-trans a b)
Around-trans a (after c h b) = after c h (Around-trans a b)

Around-reverse : {w v : Text} → Around w v → Around (reverse w) (reverse v)
Around-reverse same = same
Around-reverse {w} (before {v} c h a) =
    subst (λ x. Around (reverse w) x) (sym (reverse-append (c ∷ []) v))
      (after c h (Around-reverse a))
Around-reverse {w} (after {v} c h a) =
    subst (λ x. Around (reverse w) x) (sym (reverse-append v (c ∷ [])))
      (before c h (Around-reverse a))

Around-lstrip : (v : Text) → Around (lstrip v) v
unfolding lstrip
Around-lstrip [] = same
Around-lstrip (c ∷ v) = elim (Bool-cases (is_space c)) [
  | inl h ↦ rw h (before c h (Around-lstrip v))
  | inr h ↦ rw h same
]

Around-rstrip : (v : Text) → Around (rstrip v) v
unfolding rstrip
Around-rstrip v =
    subst (λ x. Around (reverse (lstrip (reverse v))) x) (reverse-reverse v)
      (Around-reverse (Around-lstrip (reverse v)))

Around-strip : (v : Text) → Around (strip v) v
unfolding strip
Around-strip v = Around-trans (Around-rstrip (lstrip v)) (Around-lstrip v)

-- What the documentation of Python says of `\d` and of str.casefold, which folds one code point at
-- a time.
pub record UnicodeLaws (u : Unicode) : Type 0 where
  pub space_is_not_decimal : (c : ℕ) → is_space c ≡ true → u.is_decimal c ≡ false
  pub casefold-append : (s t : Text) → u.casefold (s ++ t) ≡ u.casefold s ++ u.casefold t

starts_with-append : (t s r : Text) → starts_with t s ≡ true → starts_with t (s ++ r) ≡ true
unfolding starts_with
starts_with-append [] s r h = ground arith
starts_with-append (c ∷ t) [] r h = ground arith
starts_with-append (c ∷ t) (d ∷ s) r h = ground (arith, starts_with-append t s r)

starts_with_nil : (t r : Text) → starts_with t [] ≡ true → starts_with t r ≡ true
unfolding starts_with
starts_with_nil [] r h = ground arith
starts_with_nil (c ∷ t) r h = ground arith

contains_of_starts : (t s : Text) → starts_with t s ≡ true → contains t s ≡ true
unfolding contains
contains_of_starts t [] h = h
contains_of_starts t (d ∷ s) h = ground arith

contains-append_left : (t s r : Text) → contains t s ≡ true → contains t (s ++ r) ≡ true
unfolding contains
contains-append_left t [] r h = contains_of_starts t r (starts_with_nil t r h)
contains-append_left t (d ∷ s) r h =
    ground (arith, contains-append_left t s r, starts_with-append t (d ∷ s) r)

contains-append_right : (t r s : Text) → contains t s ≡ true → contains t (r ++ s) ≡ true
unfolding contains
contains-append_right t [] s h = h
contains-append_right t (d ∷ r) s h = ground (arith, contains-append_right t r s)

mentions-append_left :
    (ts : List Text) (s r : Text) → mentions ts s ≡ true → mentions ts (s ++ r) ≡ true
unfolding mentions
mentions-append_left [] s r h = ground arith
mentions-append_left (t ∷ ts) s r h =
    ground (arith, mentions-append_left ts s r, contains-append_left t s r)

mentions-append_right :
    (ts : List Text) (r s : Text) → mentions ts s ≡ true → mentions ts (r ++ s) ≡ true
unfolding mentions
mentions-append_right [] r s h = ground arith
mentions-append_right (t ∷ ts) r s h =
    ground (arith, mentions-append_right ts r s, contains-append_right t r s)

has_code_run-append :
    (ns ms : List ℕ) → has_code_run (ns ++ ms) ≡ (has_code_run ns || has_code_run ms)
has_code_run-append [] ms = refl
has_code_run-append (n ∷ ns) ms = ground (arith, has_code_run-append ns ms)

digit_runs-append_other :
    (is_decimal : ℕ → Bool) (n c : ℕ) (s : Text)
    → is_decimal c ≡ false
    → digit_runs is_decimal n (s ++ c ∷ []) ≡ digit_runs is_decimal n s ++ 0 ∷ []
digit_runs-append_other is_decimal n c [] h = ground arith
digit_runs-append_other is_decimal n c (d ∷ s) h = ground (
  arith,
  digit_runs-append_other is_decimal (suc n) c s,
  digit_runs-append_other is_decimal 0 c s,
)

module _ (u : Unicode) (laws : UnicodeLaws u) where
  has_code-Around : {w v : Text} → Around w v → has_code u.is_decimal v ≡ has_code u.is_decimal w
  has_code-Around same = refl
  has_code-Around {w} (before {v} c h a) = ground (
    arith,
    has_code-runs u.is_decimal (c ∷ v),
    has_code-runs u.is_decimal v,
    laws.space_is_not_decimal c h,
    has_code-Around a,
  )
  has_code-Around {w} (after {v} c h a) = ground (
    arith,
    has_code-runs u.is_decimal (v ++ c ∷ []),
    has_code-runs u.is_decimal v,
    digit_runs-append_other u.is_decimal 0 c v (laws.space_is_not_decimal c h),
    has_code_run-append (digit_runs u.is_decimal 0 v) (0 ∷ []),
    has_code-Around a,
  )

  mentions-Around :
      (ts : List Text) {w v : Text}
      → Around w v
      → mentions ts (u.casefold w) ≡ true
      → mentions ts (u.casefold v) ≡ true
  mentions-Around ts same h = h
  mentions-Around ts {w} (before {v} c s a) h =
      rw (laws.casefold-append (c ∷ []) v)
        (mentions-append_right ts (u.casefold (c ∷ [])) (u.casefold v) (mentions-Around ts a h))
  mentions-Around ts {w} (after {v} c s a) h =
      rw (laws.casefold-append v (c ∷ []))
        (mentions-append_left ts (u.casefold v) (u.casefold (c ∷ [])) (mentions-Around ts a h))

  -- If the stripped text holds a verification secret, so does the text.
  pub contains_verification_secret-strip :
      (v : Text)
      → contains_verification_secret u (some v) ≡ false
      → contains_verification_secret u (some (strip v)) ≡ false
  unfolding contains_verification_secret strip lstrip rstrip
  contains_verification_secret-strip [] h = refl
  contains_verification_secret-strip (c ∷ v) h = ground (
    arith,
    mentions-Around secret_terms (Around-strip (c ∷ v)),
    has_code-Around (Around-strip (c ∷ v)),
  )
