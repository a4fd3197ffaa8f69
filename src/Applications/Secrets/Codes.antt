-- ===== src/Applications/Secrets/Codes.antt =====
-- `re.search(r"(?<!\d)\d{4,10}(?!\d)", text)`, and the test for a secret built on it.
use job_ping.Base.{
  ℕ, zero, suc, Bool, true, false, not, ◌&&◌, ◌||◌, Option, none, some, List, [], ◌∷◌, Text, codes,
  contains, is_empty, nat_eq,
}

-- What Python's `re` and `str` take from the Unicode database.
pub record Unicode : Type 0 where
  pub is_decimal : ℕ → Bool
  pub casefold : Text → Text

module _ (is_decimal : ℕ → Bool) where
  -- `\d{k}(?!\d)` at the head of a text.
  unfoldable pub match_digits : ℕ → Text → Bool
  match_digits zero [] = true
  match_digits zero (c ∷ s) = not (is_decimal c)
  match_digits (suc k) [] = false
  match_digits (suc k) (c ∷ s) = is_decimal c && match_digits k s

  -- `\d{4,10}(?!\d)`: the longest count is tried first.
  unfoldable pub match_code : Text → Bool
  unfolding match_digits
  match_code s =
      match_digits 10 s
      || match_digits 9 s
      || match_digits 8 s
      || match_digits 7 s
      || match_digits 6 s
      || match_digits 5 s
      || match_digits 4 s

  -- The search over all positions; `previous` tells whether a digit stands before the position.
  unfoldable pub search_code : Bool → Text → Bool
  search_code previous [] = not previous && match_code []
  search_code previous (c ∷ s) = not previous && match_code (c ∷ s) || search_code (is_decimal c) s

  unfoldable pub has_code : Text → Bool
  unfolding search_code match_code match_digits
  has_code text = search_code false text

abbrev pub secret_terms : List Text
secret_terms =
    codes "otp"
    ∷ codes "one time"
    ∷ codes "verification"
    ∷ codes "security code"
    ∷ codes "authenticator"
    ∷ codes "enter code"
    ∷ codes "code is"
    ∷ []

-- `any(term in text for term in terms)`
unfoldable pub mentions : List Text → Text → Bool
mentions [] text = false
mentions (t ∷ ts) text = contains t text || mentions ts text

module _ (u : Unicode) where
  unfoldable pub contains_verification_secret : Option Text → Bool
  contains_verification_secret none = false
  contains_verification_secret (some value) =
      not (is_empty value)
      && (mentions secret_terms (u.casefold value) && has_code u.is_decimal value)

  -- `bool(instruction and re.search(...))`
  unfoldable pub instruction_has_code : Option Text → Bool
  instruction_has_code none = false
  instruction_has_code (some value) = not (is_empty value) && has_code u.is_decimal value
