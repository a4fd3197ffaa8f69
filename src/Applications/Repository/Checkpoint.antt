-- ===== src/Applications/Repository/Checkpoint.antt =====
-- `update_application_checkpoint` and `reset_application` of app/db/repository.py.
use job_ping.Base.{
  ℕ, List, Option, none, ◌∷◌, Bool, Text, [], true, some, elem, strip, not, raise, guard, ◌==◌,
  nat_eq, ◌>>=◌, ◌>>◌,
}
use job_ping.Applications.Models.{Instant, Status, Stage, Attempt, status_eq}
use job_ping.Applications.Repository.Transition.{given, is_blank}
use job_ping.Applications.Repository.Store.{
  M, get_application_attempt, not_started, ensure_application_attempt, not_active, submitted_reset,
  save_attempt, empty_url, stage_mismatch,
}

-- `active_statuses`
unfoldable pub active_statuses : List Status
active_statuses =
    Status.in_progress ∷ Status.needs_verification ∷ Status.needs_review ∷ Status.ready_to_submit
    ∷ []

-- `stage_statuses`
unfoldable pub stage_statuses : Stage → List Status
stage_statuses Stage.opened = Status.in_progress ∷ []
stage_statuses Stage.application_form = Status.in_progress ∷ []
stage_statuses Stage.candidate_info = Status.in_progress ∷ []
stage_statuses Stage.resume_uploaded = Status.in_progress ∷ []
stage_statuses Stage.custom_questions = Status.in_progress ∷ []
stage_statuses Stage.verification = Status.in_progress ∷ Status.needs_verification ∷ []
stage_statuses Stage.review = Status.in_progress ∷ Status.needs_review ∷ []
stage_statuses Stage.ready_to_submit = Status.in_progress ∷ Status.ready_to_submit ∷ []
stage_statuses Stage.submitted = Status.submitted ∷ []
stage_statuses Stage.failed = Status.failed ∷ []

abbrev pub stage_fits : Status → Option Stage → Bool
stage_fits status none = true
stage_fits status (some stage) = elem status (stage_statuses stage)

abbrev pub strip_url : Option Text → Option Text
strip_url none = none
strip_url (some url) = some (strip url)

-- The row after a checkpoint update.
unfoldable pub at_checkpoint : Instant → Option Text → Option Stage → Attempt → Attempt
at_checkpoint now current_url stage a = record a {
  current_url = given (strip_url current_url) a.current_url;
  checkpoint_stage = given stage a.checkpoint_stage;
  updated_at = now;
}

abbrev pub checkpoint_row : Instant → Option Text → Option Stage → Option Attempt → M Attempt
checkpoint_row now current_url stage none = raise not_started
checkpoint_row now current_url stage (some a) = do
  guard (elem a.status active_statuses) not_active
  guard (not (is_blank current_url)) empty_url
  guard (stage_fits a.status stage) stage_mismatch
  save_attempt (at_checkpoint now current_url stage a)

unfoldable pub update_application_checkpoint : Instant → ℕ → Option Text → Option Stage → M Attempt
unfolding get_application_attempt active_statuses stage_statuses
update_application_checkpoint now job_id current_url stage = do
  found ← get_application_attempt job_id
  checkpoint_row now current_url stage found

-- The row after a reset: the identity, the count and the first start are kept.
unfoldable pub reset_row : Instant → Attempt → Attempt
reset_row now a = record a {
  status = Status.queued;
  checkpoint_stage = none;
  current_url = none;
  confirmation_url = none;
  verification_type = none;
  verification_started_at = none;
  verification_completed_at = none;
  resume_instruction = none;
  failure_code = none;
  failure_message = none;
  review_question = none;
  review_reason = none;
  updated_at = now;
}

abbrev pub reset_found : Instant → ℕ → Option Attempt → M Attempt
reset_found now job_id none = ensure_application_attempt now job_id
reset_found now job_id (some a) = do
  guard (not (a.status == Status.submitted)) submitted_reset
  save_attempt (reset_row now a)

unfoldable pub reset_application : Instant → ℕ → M Attempt
unfolding get_application_attempt ensure_application_attempt
reset_application now job_id = do
  found ← get_application_attempt job_id
  reset_found now job_id found
