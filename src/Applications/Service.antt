-- ===== src/Applications/Service.antt =====
-- `ApplicationService` of app/applications/service.py, without the logging and the browser.
use job_ping.Base.{ℕ, Option, none, some, pure, Text, ◌>>=◌, ◌>>◌}
use job_ping.Applications.Models.{
  Instant, Status, Stage, Attempt, Checkpoint, VerificationType, Failure, checkpoint_from_attempt,
}
use job_ping.Applications.Repository.Store.{
  get_job_by_id, M, get_application_attempt, Session, open_job, ensure_application_attempt,
}
use job_ping.Applications.Secrets.Codes.{Unicode}
use job_ping.Applications.Repository.Answers.{NewAnswer, save_application_answer}
use job_ping.Applications.Repository.Transition.{transition_application, no_details}
use job_ping.Applications.Repository.Checkpoint.{update_application_checkpoint, reset_application}

-- `logger` and the returned object aside, every method is one repository call; the attempt that
-- `start_application` returns is the row that the second call updates too.
module _ (u : Unicode) (now : Instant) (job_id : ℕ) where
  unfoldable pub start_application : Option Text → M Attempt
  unfolding get_job_by_id transition_application update_application_checkpoint
  start_application current_url = do
    job ← get_job_by_id job_id
    open_job job
    transition_application u now job_id Status.in_progress
        (record no_details { current_url = current_url })
    update_application_checkpoint now job_id current_url (some Stage.opened)

  unfoldable pub mark_verification_required : VerificationType → Text → Text → M Attempt
  unfolding transition_application
  mark_verification_required verification_type current_url instruction =
      transition_application u now job_id Status.needs_verification (record no_details {
        current_url = some current_url;
        verification_type = some verification_type;
        resume_instruction = some instruction;
      })

  unfoldable pub mark_verification_complete : Option Text → M Attempt
  unfolding transition_application
  mark_verification_complete current_url =
      transition_application u now job_id Status.in_progress
        (record no_details { current_url = current_url })

  unfoldable pub mark_needs_review : Option Text → Option Text → Option Text → M Attempt
  unfolding transition_application
  mark_needs_review current_url review_question review_reason =
      transition_application u now job_id Status.needs_review (record no_details {
        current_url = current_url;
        review_question = review_question;
        review_reason = review_reason;
      })

  unfoldable pub mark_ready_to_submit : Option Text → M Attempt
  unfolding transition_application
  mark_ready_to_submit current_url =
      transition_application u now job_id Status.ready_to_submit
        (record no_details { current_url = current_url })

  unfoldable pub update_checkpoint : Option Text → Option Stage → M Attempt
  unfolding update_application_checkpoint
  update_checkpoint current_url stage = update_application_checkpoint now job_id current_url stage

  unfoldable pub mark_submitted : Option Text → M Attempt
  unfolding transition_application
  mark_submitted confirmation_url =
      transition_application u now job_id Status.submitted
        (record no_details { confirmation_url = confirmation_url })

  unfoldable pub mark_failed : Failure → Option Text → Option Text → M Attempt
  unfolding transition_application
  mark_failed failure_code failure_message current_url =
      transition_application u now job_id Status.failed (record no_details {
        failure_code = some failure_code;
        failure_message = failure_message;
        current_url = current_url;
      })

  abbrev pub checkpoint_or_new : Option Attempt → M Checkpoint
  checkpoint_or_new (some a) = pure (checkpoint_from_attempt a)
  checkpoint_or_new none = do
    a ← ensure_application_attempt now job_id
    pure (checkpoint_from_attempt a)

  unfoldable pub get_checkpoint : M Checkpoint
  unfolding get_application_attempt ensure_application_attempt
  get_checkpoint = do attempt ← get_application_attempt job_id; checkpoint_or_new attempt

-- The calls of the service that can write an attempt.
pub data Call : Type 0 where
  start : Option Text → Call
  verification_required : VerificationType → Text → Text → Call
  verification_complete : Option Text → Call
  needs_review : Option Text → Option Text → Option Text → Call
  ready_to_submit : Option Text → Call
  checkpoint : Option Text → Option Stage → Call
  submitted : Option Text → Call
  failed : Failure → Option Text → Option Text → Call
  answer : NewAnswer → Call
  status : Call
  reset : Call

-- The rows after a call, whether it returns or raises.
unfoldable pub perform : Unicode → Instant → ℕ → Call → Session → Session
perform u now job_id (start url) s = (start_application u now job_id url s).1
perform u now job_id (verification_required kind url text) s =
    (mark_verification_required u now job_id kind url text s).1
perform u now job_id (verification_complete url) s =
    (mark_verification_complete u now job_id url s).1
perform u now job_id (needs_review url question reason) s =
    (mark_needs_review u now job_id url question reason s).1
perform u now job_id (ready_to_submit url) s = (mark_ready_to_submit u now job_id url s).1
perform u now job_id (checkpoint url stage) s = (update_checkpoint u now job_id url stage s).1
perform u now job_id (submitted url) s = (mark_submitted u now job_id url s).1
perform u now job_id (failed code message url) s = (mark_failed u now job_id code message url s).1
perform u now job_id (answer n) s = (save_application_answer u now job_id n s).1
perform u now job_id status s = (get_checkpoint u now job_id s).1
perform u now job_id reset s = (reset_application now job_id s).1
