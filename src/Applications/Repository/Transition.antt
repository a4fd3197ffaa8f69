-- ===== src/Applications/Repository/Transition.antt =====
-- `transition_application` of app/db/repository.py.
use job_ping.Base.{
  ℕ, ◌+◌, Bool, false, not, ◌&&◌, ◌||◌, Option, none, some, List, [], ◌∷◌, Text, strip, is_empty,
  elem, ◌==◌, if◌then◌else◌, pure, raise, gets, guard, ◌>>=◌, ◌>>◌, nat_eq,
}
use job_ping.Applications.Models.{
  Instant, Status, status_eq, Stage, VerificationType, Failure, Job, Attempt,
}
use job_ping.Applications.Secrets.Codes.{
  Unicode, contains_verification_secret, instruction_has_code,
}
use job_ping.Applications.Repository.Store.{
  job_not_found, job_closed, missing_row, invalid_transition, secret, empty_review_question,
  empty_review_reason, M, find_job, save_attempt, add_attempt, get_job_by_id,
  get_application_attempt,
}

-- The keyword arguments.
pub record Details : Type 0 where
  pub current_url : Option Text
  pub confirmation_url : Option Text
  pub verification_type : Option VerificationType
  pub resume_instruction : Option Text
  pub failure_code : Option Failure
  pub failure_message : Option Text
  pub review_question : Option Text
  pub review_reason : Option Text

abbrev pub no_details : Details
no_details = record {
  current_url = none;
  confirmation_url = none;
  verification_type = none;
  resume_instruction = none;
  failure_code = none;
  failure_message = none;
  review_question = none;
  review_reason = none;
}

-- The table `allowed`.
unfoldable pub allowed : Status → List Status
allowed Status.queued = Status.in_progress ∷ Status.failed ∷ []
allowed Status.in_progress =
    Status.needs_verification ∷ Status.needs_review ∷ Status.ready_to_submit ∷ Status.failed ∷ []
allowed Status.needs_verification = Status.in_progress ∷ Status.failed ∷ []
allowed Status.ready_to_submit = Status.submitted ∷ Status.failed ∷ []
allowed Status.failed = Status.in_progress ∷ []
allowed Status.needs_review = Status.failed ∷ []
allowed Status.submitted = []
allowed Status.skipped = []

-- A closed posting accepts no other transition than one to `failed`.
abbrev pub closed_bars : Status → Option Job → M (Unit {0})
closed_bars new_status none = raise missing_row
closed_bars new_status (some job) =
    guard (not (job.is_closed && not (new_status == Status.failed))) job_closed

abbrev pub job_for_new : Status → Option Job → M (Unit {0})
job_for_new new_status none = raise job_not_found
job_for_new new_status (some job) =
    guard (not (job.is_closed && not (new_status == Status.failed))) job_closed

-- The row to change: the stored one, or a new queued one.
unfoldable pub attempt_for : Instant → ℕ → Status → Option Attempt → M Attempt
unfolding get_job_by_id
attempt_for now job_id new_status none = do
  job ← get_job_by_id job_id
  job_for_new new_status job
  add_attempt job_id now
attempt_for now job_id new_status (some a) = do
  job ← gets (λ s. find_job a.job_id s.jobs)
  closed_bars new_status job
  pure a

-- `value is not None and not value.strip()`
abbrev pub is_blank : Option Text → Bool
is_blank none = false
is_blank (some t) = is_empty (strip t)

-- `value.strip() if value else None`
unfoldable pub stripped : Option Text → Option Text
stripped none = none
stripped (some t) = if is_empty t then none else some (strip t)

-- `new if new is not None else old`, and `old or new`.
abbrev pub given {ℓ} : {A : Type ℓ} → Option A → Option A → Option A
given none old = old
given (some v) old = some v

abbrev pub or_else {ℓ} : {A : Type ℓ} → Option A → A → A
or_else none v = v
or_else (some u) v = u

-- The assignments, in their order.
abbrev pub set_status : Instant → Status → Details → Attempt → Attempt
set_status now new_status d a = record a {
  status = new_status;
  updated_at = now;
  current_url = given d.current_url a.current_url;
  confirmation_url = given d.confirmation_url a.confirmation_url;
}

abbrev pub start_attempt : Instant → Status → Status → Attempt → Attempt
start_attempt now previous new_status a =
    if new_status == Status.in_progress && elem previous (Status.queued ∷ Status.failed ∷ [])
    then record a {
      attempt_count = a.attempt_count + 1;
      started_at = some (or_else a.started_at now);
      failure_code = none;
      failure_message = none;
      review_question = none;
      review_reason = none;
    }
    else a

abbrev pub complete_verification : Instant → Status → Status → Attempt → Attempt
complete_verification now previous new_status a =
    if new_status == Status.in_progress && previous == Status.needs_verification
    then record a {
      verification_completed_at = some now;
      resume_instruction = none;
      review_question = none;
      review_reason = none;
    }
    else a

abbrev pub enter_pause : Instant → Status → Details → Attempt → Attempt
enter_pause now Status.needs_verification d a = record a {
  verification_type = some (or_else d.verification_type VerificationType.unknown);
  verification_started_at = some now;
  resume_instruction = d.resume_instruction;
  checkpoint_stage = some Stage.verification;
}
enter_pause now Status.needs_review d a = record a {
  checkpoint_stage = some Stage.review;
  review_question = stripped d.review_question;
  review_reason = stripped d.review_reason;
}
enter_pause now Status.ready_to_submit d a = record a {
  checkpoint_stage = some Stage.ready_to_submit;
}
enter_pause now _ d a = a

abbrev pub enter_end : Instant → Status → Details → Attempt → Attempt
enter_end now Status.submitted d a = record a {
  submitted_at = some now;
  checkpoint_stage = some Stage.submitted;
}
enter_end now Status.failed d a = record a {
  failure_code = some (or_else d.failure_code Failure.unknown);
  failure_message = d.failure_message;
  review_question = none;
  review_reason = none;
  checkpoint_stage = some Stage.failed;
}
enter_end now _ d a = a

unfoldable pub apply_transition : Instant → Status → Details → Attempt → Attempt
apply_transition now new_status d a = enter_end now new_status d (
    enter_pause now new_status d (
      complete_verification now a.status new_status
        (start_attempt now a.status new_status (set_status now new_status d a))))

module _ (u : Unicode) where
  unfoldable pub has_secret : Details → Bool
  has_secret d =
      instruction_has_code u d.resume_instruction
      || contains_verification_secret u d.failure_message
      || contains_verification_secret u d.review_question
      || contains_verification_secret u d.review_reason

  -- The checks on the row and the arguments, then the assignments and the flush.
  unfoldable pub change_status : Instant → Status → Details → Attempt → M Attempt
  unfolding allowed
  change_status now new_status d a = do
    guard (elem new_status (allowed a.status)) invalid_transition
    guard (not (has_secret d)) secret
    guard (not (is_blank d.review_question)) empty_review_question
    guard (not (is_blank d.review_reason)) empty_review_reason
    save_attempt (apply_transition now new_status d a)

  unfoldable pub transition_application : Instant → ℕ → Status → Details → M Attempt
  unfolding get_application_attempt attempt_for change_status
  transition_application now job_id new_status d = do
    found ← get_application_attempt job_id
    attempt ← attempt_for now job_id new_status found
    change_status now new_status d attempt
