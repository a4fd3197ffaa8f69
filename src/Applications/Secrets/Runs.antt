-- ===== src/Applications/Secrets/Runs.antt =====
-- The regular expression for a code against the maximal runs of digits in a text.
use Prim.Native.Nat.{◌+◌}
use job_ping.Base.{
  ℕ, zero, suc, ◌≡◌, refl, Bool, true, false, ◌&&◌, ◌||◌, List, [], ◌∷◌, Text, leb, ◌==◌, nat_eq,
  arith, if◌then◌else◌,
}
use job_ping.Applications.Secrets.Codes.{match_digits, match_code, search_code, has_code}

-- The lengths of the maximal runs of digits, from left to right, empty ones included.
abbrev pub digit_runs : (ℕ → Bool) → ℕ → Text → List ℕ
digit_runs is_decimal n [] = n ∷ []
digit_runs is_decimal n (c ∷ s) =
    let more = digit_runs is_decimal (suc n) s in
    let next = digit_runs is_decimal 0 s in if is_decimal c then more else n ∷ next

-- Whether some run has between four and ten digits.
abbrev pub has_code_run : List ℕ → Bool
has_code_run [] = false
has_code_run (n ∷ ns) = leb 4 n && leb n 10 || has_code_run ns

module _ (is_decimal : ℕ → Bool) where
  lead : Text → ℕ
  lead [] = 0
  lead (c ∷ s) = let more = suc (lead s) in if is_decimal c then more else 0

  later : Text → List ℕ
  later [] = []
  later (c ∷ s) = let more = later s in if is_decimal c then more else digit_runs is_decimal 0 s

  digit_runs_lem : (n : ℕ) (s : Text) → digit_runs is_decimal n s ≡ (n + lead s) ∷ later s
  unfolding lead later
  digit_runs_lem n [] = ground arith
  digit_runs_lem n (c ∷ s) = ground (arith, digit_runs_lem (suc n) s)

  match_digits_lem : (k : ℕ) (s : Text) → match_digits is_decimal k s ≡ (k == lead s)
  unfolding match_digits lead
  match_digits_lem zero [] = refl
  match_digits_lem zero (c ∷ s) = ground arith
  match_digits_lem (suc k) [] = ground arith
  match_digits_lem (suc k) (c ∷ s) = ground (arith, match_digits_lem k s)

  match_code_lem : (s : Text) → match_code is_decimal s ≡ (leb 4 (lead s) && leb (lead s) 10)
  unfolding match_code
  match_code_lem s =
      rw
        (
          match_digits_lem 10 s,
          match_digits_lem 9 s,
          match_digits_lem 8 s,
          match_digits_lem 7 s,
          match_digits_lem 6 s,
          match_digits_lem 5 s,
          match_digits_lem 4 s,
        )
        (ground arith)

  search_code_lem :
      (s : Text)
      → (search_code is_decimal true s ≡ has_code_run (later s))
        × (search_code is_decimal false s ≡ has_code_run (lead s ∷ later s))
  unfolding search_code lead later
  search_code_lem [] = (refl, ground (arith, match_code_lem []))
  search_code_lem (c ∷ s) =
      ground (arith, search_code_lem s, match_code_lem (c ∷ s), digit_runs_lem 0 s)

  -- The search for a code succeeds exactly when the text has a maximal run of digits whose length is
  -- between four and ten.
  pub has_code-runs :
      (text : Text) → has_code is_decimal text ≡ has_code_run (digit_runs is_decimal 0 text)
  unfolding has_code
  has_code-runs text = rw (digit_runs_lem 0 text) (ground (arith, search_code_lem text))
