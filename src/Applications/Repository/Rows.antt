-- ===== src/Applications/Repository/Rows.antt =====
-- The rows of attempts as a map from jobs, for the methods of app/db/repository.py.
use job_ping.Base.{
  ℕ, ◌≡◌, refl, ◌≢◌, none, some, List, [], ◌∷◌, ◌++◌, arith, nat_beq, if◌then◌else◌,
}
use job_ping.Applications.Models.{Attempt}
use job_ping.Applications.Repository.Store.{find_attempt, put_attempt}

pub find_attempt-job_id :
    (j : ℕ) (l : List Attempt) (a : Attempt) → find_attempt j l ≡ some a → a.job_id ≡ j
find_attempt-job_id j [] a h = ground arith
find_attempt-job_id j (b ∷ l) a h = ground (arith, find_attempt-job_id j l a)

pub find_attempt-put_self :
    (j : ℕ) (a b : Attempt) (l : List Attempt)
    → a.job_id ≡ j
    → find_attempt j l ≡ some b
    → find_attempt j (put_attempt a l) ≡ some a
find_attempt-put_self j a b [] e h = ground arith
find_attempt-put_self j a b (c ∷ l) e h = ground (arith, find_attempt-put_self j a b l e)

pub find_attempt-put_ne :
    (j : ℕ) (a : Attempt) (l : List Attempt)
    → j ≢ a.job_id
    → find_attempt j (put_attempt a l) ≡ find_attempt j l
find_attempt-put_ne j a [] e = refl
find_attempt-put_ne j a (c ∷ l) e = ground (arith, find_attempt-put_ne j a l e)

pub find_attempt-append_old :
    (j : ℕ) (a b : Attempt) (l : List Attempt)
    → find_attempt j l ≡ some b
    → find_attempt j (l ++ a ∷ []) ≡ some b
find_attempt-append_old j a b [] h = ground arith
find_attempt-append_old j a b (c ∷ l) h = ground (arith, find_attempt-append_old j a b l)

pub find_attempt-append_new :
    (j : ℕ) (a : Attempt) (l : List Attempt)
    → find_attempt j l ≡ none
    → find_attempt j (l ++ a ∷ []) ≡ (if nat_beq a.job_id j then some a else none)
find_attempt-append_new j a [] h = ground arith
find_attempt-append_new j a (c ∷ l) h = ground (arith, find_attempt-append_new j a l)

pub find_attempt-append_ne :
    (j : ℕ) (a : Attempt) (l : List Attempt)
    → j ≢ a.job_id
    → find_attempt j (l ++ a ∷ []) ≡ find_attempt j l
find_attempt-append_ne j a [] h = ground arith
find_attempt-append_ne j a (c ∷ l) h = ground (arith, find_attempt-append_ne j a l h)

-- A write to the row that was just added leaves the old rows alone.
pub put_attempt-append :
    (a b : Attempt) (l : List Attempt)
    → a.job_id ≡ b.job_id
    → find_attempt b.job_id l ≡ none
    → put_attempt a (l ++ b ∷ []) ≡ l ++ a ∷ []
put_attempt-append a b [] e h = ground arith
put_attempt-append a b (c ∷ l) e h = ground (arith, put_attempt-append a b l e)
