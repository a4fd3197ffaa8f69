-- ===== src/Applications/Lifecycle/Assigned.antt =====
-- The columns that `transition_application` of app/db/repository.py assigns.
use job_ping.Base.{suc, ◌≡◌, ◌≢◌, ◌⊎◌, none, some, arith, elem, Text, nat_eq}
use job_ping.Applications.Models.{
  Instant, Status, status_eq, Status-discrete, Attempt, Stage, VerificationType, Failure,
}
use job_ping.Applications.Repository.Transition.{Details, apply_transition, or_else, stripped}

-- What a transition assigns to the row of an attempt, column by column.
pub record Assigned (now : Instant) (new_status : Status) (d : Details) (a b : Attempt)
    : Type 0 where
  pub same_row : (b.id ≡ a.id) × (b.job_id ≡ a.job_id)
  pub status : b.status ≡ new_status
  pub updated : b.updated_at ≡ now
  pub urls :
      ((x : Text) → d.current_url ≡ some x → b.current_url ≡ some x)
      × (d.current_url ≡ none → b.current_url ≡ a.current_url)
      × ((x : Text) → d.confirmation_url ≡ some x → b.confirmation_url ≡ some x)
      × (d.confirmation_url ≡ none → b.confirmation_url ≡ a.confirmation_url)
  pub started :
      new_status ≡ Status.in_progress
      → (a.status ≡ Status.queued) ⊎ (a.status ≡ Status.failed)
      → (b.attempt_count ≡ suc a.attempt_count)
        × (b.started_at ≡ some (or_else a.started_at now))
        × (b.failure_code ≡ none)
        × (b.failure_message ≡ none)
        × (b.review_question ≡ none)
        × (b.review_reason ≡ none)
  pub resumed :
      new_status ≡ Status.in_progress
      → a.status ≡ Status.needs_verification
      → (b.verification_completed_at ≡ some now)
        × (b.resume_instruction ≡ none)
        × (b.review_question ≡ none)
        × (b.review_reason ≡ none)
        × (b.attempt_count ≡ a.attempt_count)
  pub verifying :
      new_status ≡ Status.needs_verification
      → (b.verification_type ≡ some (or_else d.verification_type VerificationType.unknown))
        × (b.verification_started_at ≡ some now)
        × (b.resume_instruction ≡ d.resume_instruction)
        × (b.checkpoint_stage ≡ some Stage.verification)
  pub reviewing :
      new_status ≡ Status.needs_review
      → (b.review_question ≡ stripped d.review_question)
        × (b.review_reason ≡ stripped d.review_reason)
        × (b.checkpoint_stage ≡ some Stage.review)
  pub ready : new_status ≡ Status.ready_to_submit → b.checkpoint_stage ≡ some Stage.ready_to_submit
  pub submitted :
      new_status ≡ Status.submitted
      → (b.submitted_at ≡ some now) × (b.checkpoint_stage ≡ some Stage.submitted)
  pub failed :
      new_status ≡ Status.failed
      → (b.failure_code ≡ some (or_else d.failure_code Failure.unknown))
        × (b.failure_message ≡ d.failure_message)
        × (b.review_question ≡ none)
        × (b.review_reason ≡ none)
        × (b.checkpoint_stage ≡ some Stage.failed)
  pub keeps_submitted : new_status ≢ Status.submitted → b.submitted_at ≡ a.submitted_at
  pub keeps_start :
      new_status ≢ Status.in_progress
      → (b.attempt_count ≡ a.attempt_count)
        × (b.started_at ≡ a.started_at)
        × (b.verification_completed_at ≡ a.verification_completed_at)
  pub keeps_verification :
      new_status ≢ Status.needs_verification
      → (b.verification_type ≡ a.verification_type)
        × (b.verification_started_at ≡ a.verification_started_at)
  pub keeps_failure :
      new_status ≢ Status.in_progress
      → new_status ≢ Status.failed
      → (b.failure_code ≡ a.failure_code) × (b.failure_message ≡ a.failure_message)
  pub keeps_review :
      new_status ≢ Status.in_progress
      → new_status ≢ Status.needs_review
      → new_status ≢ Status.failed
      → (b.review_question ≡ a.review_question) × (b.review_reason ≡ a.review_reason)
  pub keeps_instruction :
      new_status ≢ Status.in_progress
      → new_status ≢ Status.needs_verification
      → b.resume_instruction ≡ a.resume_instruction
  pub keeps_stage : new_status ≡ Status.in_progress → b.checkpoint_stage ≡ a.checkpoint_stage

pub apply_transition-Assigned :
    (now : Instant) (new_status : Status) (d : Details) (a : Attempt)
    → Assigned now new_status d a (apply_transition now new_status d a)
unfolding apply_transition elem Status-discrete
apply_transition-Assigned now new_status d a = record {
  same_row = ground arith;
  status = ground arith;
  updated = ground arith;
  urls = ground arith;
  started = ground arith;
  resumed = ground arith;
  verifying = ground arith;
  reviewing = ground arith;
  ready = ground arith;
  submitted = ground arith;
  failed = ground arith;
  keeps_submitted = ground arith;
  keeps_start = ground arith;
  keeps_verification = ground arith;
  keeps_failure = ground arith;
  keeps_review = ground arith;
  keeps_instruction = ground arith;
  keeps_stage = ground arith;
}
