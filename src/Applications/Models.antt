-- ===== src/Applications/Models.antt =====
-- The rows and enumerations of app/db/models.py that an application uses, and the projection of
-- app/applications/models.py. An instant is a number of microseconds; a naive value reads as UTC.
use job_ping.Base.{ℕ, Bool, Option, none, Text, Eq, discrete_eq, ◌==◌, if◌then◌else◌, nat_eq}

abbrev pub Instant : Type 0
Instant = ℕ

pub data Status : Type 0 where
  queued in_progress needs_verification needs_review ready_to_submit submitted failed skipped :
      Status

pub data Stage : Type 0 where
  opened application_form candidate_info resume_uploaded custom_questions : Stage
  verification review ready_to_submit submitted failed : Stage

pub data VerificationType : Type 0 where
  email_otp email_magic_link sms_otp authenticator captcha login unknown : VerificationType

pub data Failure : Type 0 where
  unknown application_closed already_applied unsupported_flow missing_candidate_data : Failure
  login_required verification_required browser_error submission_failed : Failure

unfoldable pub Status-discrete : Discrete Status
Status-discrete = hlevel

instance abbrev pub status_eq : Eq Status
status_eq = discrete_eq Status-discrete

-- The columns of a posting that an application reads.
pub record Job : Type 0 where
  pub id : ℕ
  pub company : Text
  pub title : Text
  pub location : Text
  pub apply_url : Text
  pub description : Option Text
  pub is_closed : Bool
  pub created_at : Instant

pub record Attempt : Type 0 where
  pub id : ℕ
  pub job_id : ℕ
  pub status : Status
  pub checkpoint_stage : Option Stage
  pub attempt_count : ℕ
  pub started_at : Option Instant
  pub updated_at : Instant
  pub submitted_at : Option Instant
  pub current_url : Option Text
  pub confirmation_url : Option Text
  pub verification_type : Option VerificationType
  pub verification_started_at : Option Instant
  pub verification_completed_at : Option Instant
  pub resume_instruction : Option Text
  pub failure_code : Option Failure
  pub failure_message : Option Text
  pub review_question : Option Text
  pub review_reason : Option Text

-- A float with at most six places, in millionths.
pub record Decimal : Type 0 where
  pub negative : Bool
  pub millionths : ℕ

pub record Answer : Type 0 where
  pub id : ℕ
  pub application_id : ℕ
  pub question : Text
  pub normalized_question : Text
  pub answer : Text
  pub source : Text
  pub generated : Bool
  pub confidence : Option Decimal

-- ApplicationCheckpoint: what the agent is shown of an attempt.
pub record Checkpoint : Type 0 where
  pub job_id : ℕ
  pub status : Status
  pub stage : Option Stage
  pub current_url : Option Text
  pub confirmation_url : Option Text
  pub verification_type : Option VerificationType
  pub resume_instruction : Option Text
  pub failure_code : Option Failure
  pub failure_message : Option Text
  pub review_question : Option Text
  pub review_reason : Option Text
  pub attempt_count : ℕ
  pub started_at : Option Instant
  pub updated_at : Instant
  pub submitted_at : Option Instant

-- `value if test else None`
abbrev pub only_if {ℓ} : {A : Type ℓ} → Bool → Option A → Option A
only_if test value = if test then value else none

unfoldable pub checkpoint_from_attempt : Attempt → Checkpoint
checkpoint_from_attempt a = record {
  job_id = a.job_id;
  status = a.status;
  stage = a.checkpoint_stage;
  current_url = a.current_url;
  confirmation_url = a.confirmation_url;
  verification_type = only_if (a.status == Status.needs_verification) a.verification_type;
  resume_instruction = only_if (a.status == Status.needs_verification) a.resume_instruction;
  failure_code = only_if (a.status == Status.failed) a.failure_code;
  failure_message = only_if (a.status == Status.failed) a.failure_message;
  review_question = only_if (a.status == Status.needs_review) a.review_question;
  review_reason = only_if (a.status == Status.needs_review) a.review_reason;
  attempt_count = a.attempt_count;
  started_at = a.started_at;
  updated_at = a.updated_at;
  submitted_at = a.submitted_at;
}

-- ApplicationJob: what the queue hands out.
pub record ApplicationJob : Type 0 where
  pub job_id : ℕ
  pub company : Text
  pub title : Text
  pub location : Text
  pub apply_url : Text
  pub description : Option Text
  pub status : Status
