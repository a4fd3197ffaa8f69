-- ===== src/Applications/Lifecycle/Checkpoints.antt =====
-- Checkpoint updates, resets and projections: app/db/repository.py and app/applications/models.py.
use mathlib.Core.Path.{subst}
use job_ping.Base.{
  ℕ, ◌≡◌, refl, ◌<◌, ◌≢◌, true, Option, none, some, arith, Text, elem, ok, err, nat_eq, sym,
  >>=-eq-ok,
}
use job_ping.Applications.Models.{
  Instant, Status, Stage, Attempt, checkpoint_from_attempt, status_eq,
}
use job_ping.Applications.Repository.Checkpoint.{
  update_application_checkpoint, reset_application, at_checkpoint, reset_row, active_statuses,
  stage_statuses, checkpoint_row, stage_fits,
}
use job_ping.Applications.Repository.Store.{
  Error, Session, find_attempt, new_attempt, get_application_attempt,
}
use job_ping.Applications.Lifecycle.Effect.{get_application_attempt_ok}

stage_possible :
    (status : Status) (stage : Option Stage)
    → elem status active_statuses ≡ true
    → stage_fits status stage ≡ true
    → (stage ≢ some Stage.submitted) × (stage ≢ some Stage.failed)
unfolding active_statuses stage_statuses elem
stage_possible status stage h f = ground arith

checkpoint_row_ok :
    (now : Instant) (url : Option Text) (stage : Option Stage) (a b : Attempt) (s t : Session)
    → checkpoint_row now url stage (some a) s ≡ (ok b, t)
    → (b ≡ at_checkpoint now url stage a)
      × (elem a.status active_statuses ≡ true)
      × (stage_fits a.status stage ≡ true)
checkpoint_row_ok now url stage a b s t h = ground arith

-- What a checkpoint update may change of a row: the URL, the stage and the update time.
pub record SameBut (now : Instant) (a b : Attempt) : Type 0 where
  pub same : b ≡ record a {
    current_url = b.current_url;
    checkpoint_stage = b.checkpoint_stage;
    updated_at = now;
  }

at_checkpoint-SameBut :
    (now : Instant) (url : Option Text) (stage : Option Stage) (a : Attempt)
    → SameBut now a (at_checkpoint now url stage a)
unfolding at_checkpoint
at_checkpoint-SameBut now url stage a = record { same = refl }

-- A checkpoint update that returns has found the job's attempt in an active status and has changed at
-- most its URL, stage and update time; it records neither the stage `submitted` nor `failed`.
pub checkpoint_keeps_status :
    (now : Instant) (job_id : ℕ) (url : Option Text) (stage : Option Stage) (b : Attempt)
    (s t : Session)
    → update_application_checkpoint now job_id url stage s ≡ (ok b, t)
    → (a : Attempt) × (find_attempt job_id s.attempts ≡ some a)
      × SameBut now a b
      × (elem a.status active_statuses ≡ true)
      × (stage ≢ some Stage.submitted)
      × (stage ≢ some Stage.failed)
unfolding update_application_checkpoint
checkpoint_keeps_status now job_id url stage b s t h =
    let (found, s1, first, rest) = >>=-eq-ok (get_application_attempt job_id) _ s t h in
    let (e, same) = get_application_attempt_ok job_id found s s1 first in go found s1 e rest
  where
    go :
        (o : Option Attempt) (s1 : Session)
        → o ≡ find_attempt job_id s.attempts
        → checkpoint_row now url stage o s1 ≡ (ok b, t)
        → (a : Attempt) × (find_attempt job_id s.attempts ≡ some a)
          × SameBut now a b
          × (elem a.status active_statuses ≡ true)
          × (stage ≢ some Stage.submitted)
          × (stage ≢ some Stage.failed)
    go none s1 e k = absurd (ground arith)
    go (some a) s1 e k =
        let (row, active, fits) = checkpoint_row_ok now url stage a b s1 t k in
        let (one, two) = stage_possible a.status stage active fits in
        (
          a,
          sym e,
          subst (λ x. SameBut now a x) (sym row) (at_checkpoint-SameBut now url stage a),
          active,
          one,
          two,
        )

-- A checkpoint update that raises leaves the session as it was.
pub checkpoint_err :
    (now : Instant) (job_id : ℕ) (url : Option Text) (stage : Option Stage) (e : Error)
    (s t : Session)
    → update_application_checkpoint now job_id url stage s ≡ (err e, t)
    → t ≡ s
unfolding update_application_checkpoint
checkpoint_err now job_id url stage e s t h = ground arith

-- A reset of a stored attempt that is not submitted queues it again: its identity, its count, its
-- first start and all answers stay, and everything else that a checkpoint shows is cleared.
pub reset_queues :
    (now : Instant) (job_id : ℕ) (a : Attempt) (s : Session)
    → 0 < job_id
    → find_attempt job_id s.attempts ≡ some a
    → a.status ≢ Status.submitted
    → let (r, t) = reset_application now job_id s in
      (r
        ≡ ok (record (new_attempt a.id a.job_id now) {
          attempt_count = a.attempt_count;
          started_at = a.started_at;
          submitted_at = a.submitted_at;
        }))
      × (t.answers ≡ s.answers)
      × (t.jobs ≡ s.jobs)
unfolding reset_application reset_row
reset_queues now job_id a s pos found live = ground arith

-- What an attempt in one state would leak of another is hidden: the verification fields show only
-- while verification is needed, the failure only after a failure, the review only during a review.
pub checkpoint_hides :
    (a : Attempt)
    → let c = checkpoint_from_attempt a in
      (c.resume_instruction ≢ none → a.status ≡ Status.needs_verification)
      × (c.verification_type ≢ none → a.status ≡ Status.needs_verification)
      × (c.failure_message ≢ none → a.status ≡ Status.failed)
      × (c.failure_code ≢ none → a.status ≡ Status.failed)
      × (c.review_question ≢ none → a.status ≡ Status.needs_review)
      × (c.review_reason ≢ none → a.status ≡ Status.needs_review)
unfolding checkpoint_from_attempt
checkpoint_hides a = ground arith
