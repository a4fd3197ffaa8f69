-- ===== src/Applications/Repository/Store.antt =====
-- The session's rows: postings, attempts (one for each job) and answers; and the reads and the
-- insertion that the other methods of `DatabaseRepository` call.
use job_ping.Base.{
  ℕ, suc, not, Option, none, some, List, [], ◌∷◌, ◌++◌, ltb, nat_beq, find, if◌then◌else◌, Exec,
  pure, raise, gets, guard, ok, ◌>>=◌, ◌>>◌,
}
use job_ping.Applications.Models.{Instant, Status, Job, Attempt, Answer}

-- Why a method raises `ValueError`; `missing_row` is the error of a relation whose row is absent,
-- which the foreign keys rule out.
pub data Error : Type 0 where
  bad_job_id job_not_found job_closed missing_row not_started not_active empty_url : Error
  stage_mismatch invalid_transition secret empty_review_question empty_review_reason : Error
  empty_answer empty_source bad_confidence submitted_reset too_many_stories : Error

pub record Session : Type 0 where
  pub jobs : List Job
  pub attempts : List Attempt
  pub answers : List Answer
  pub next_attempt_id : ℕ
  pub next_answer_id : ℕ

abbrev pub M : Type 0 → Type 0
M = Exec Error Session

abbrev pub find_job : ℕ → List Job → Option Job
find_job job_id = find (λ j. nat_beq j.id job_id)

abbrev pub find_attempt : ℕ → List Attempt → Option Attempt
find_attempt job_id = find (λ a. nat_beq a.job_id job_id)

-- The flush of a changed row: the row of its job, which the unique constraint makes the only one.
abbrev pub put_attempt : Attempt → List Attempt → List Attempt
put_attempt a [] = []
put_attempt a (b ∷ l) =
    let rest = put_attempt a l in if nat_beq b.job_id a.job_id then a ∷ l else b ∷ rest

-- `await session.flush()` with a changed attempt, which is returned.
abbrev pub save_attempt : Attempt → M Attempt
save_attempt a s = (ok a, record s { attempts = put_attempt a s.attempts })

unfoldable pub get_job_by_id : ℕ → M (Option Job)
get_job_by_id job_id = do guard (ltb 0 job_id) bad_job_id; gets (λ s. find_job job_id s.jobs)

unfoldable pub get_application_attempt : ℕ → M (Option Attempt)
get_application_attempt job_id = do
  guard (ltb 0 job_id) bad_job_id
  gets (λ s. find_attempt job_id s.attempts)

-- `ApplicationAttempt(job=job, status=QUEUED)` with the column defaults.
abbrev pub new_attempt : ℕ → ℕ → Instant → Attempt
new_attempt id job_id now = record {
  id = id;
  job_id = job_id;
  status = Status.queued;
  checkpoint_stage = none;
  attempt_count = 0;
  started_at = none;
  updated_at = now;
  submitted_at = none;
  current_url = none;
  confirmation_url = none;
  verification_type = none;
  verification_started_at = none;
  verification_completed_at = none;
  resume_instruction = none;
  failure_code = none;
  failure_message = none;
  review_question = none;
  review_reason = none;
}

-- `session.add(attempt)` and the flush that gives it its id.
abbrev pub add_attempt : ℕ → Instant → M Attempt
add_attempt job_id now s =
    let a = new_attempt s.next_attempt_id job_id now in
    (ok a, record s { attempts = s.attempts ++ a ∷ []; next_attempt_id = suc s.next_attempt_id })

-- The `if job is None` and `if job.is_closed` of several methods.
abbrev pub open_job : Option Job → M Job
open_job none = raise job_not_found
open_job (some job) = do guard (not job.is_closed) job_closed; pure job

abbrev pub existing_or_new : ℕ → Instant → Option Attempt → M Attempt
existing_or_new job_id now (some a) = pure a
existing_or_new job_id now none = add_attempt job_id now

unfoldable pub ensure_application_attempt : Instant → ℕ → M Attempt
unfolding get_job_by_id get_application_attempt
ensure_application_attempt now job_id = do
  found ← get_job_by_id job_id
  open_job found
  existing ← get_application_attempt job_id
  existing_or_new job_id now existing
