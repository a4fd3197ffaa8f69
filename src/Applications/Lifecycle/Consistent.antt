-- ===== src/Applications/Lifecycle/Consistent.antt =====
-- The status of an attempt agrees with its stage, its times and its reasons: app/db/repository.py.
use job_ping.Base.{ℕ, ◌≡◌, ◌<◌, ◌≢◌, true, Option, none, some, List, arith, All, Text, elem, nat_eq}
use job_ping.Applications.Models.{Instant, Status, Stage, Attempt, status_eq}
use job_ping.Applications.Repository.Checkpoint.{
  active_statuses, at_checkpoint, stage_statuses, stage_fits, reset_row,
}
use job_ping.Applications.Secrets.Codes.{Unicode}
use job_ping.Applications.Repository.Store.{new_attempt, Session}
use job_ping.Applications.Repository.Transition.{apply_transition, allowed, Details}
use job_ping.Applications.Lifecycle.History.{
  RowStep, RowReach, History, moved, next, kept, checked, fresh, here, restarted, done,
}
use job_ping.Applications.Lifecycle.Reach.{Reach, Reach-History}

pub record IsConsistent (a : Attempt) : Type 0 where
  pub not_skipped : a.status ≢ Status.skipped
  pub fresh_stage : a.status ≡ Status.queued → a.checkpoint_stage ≡ none
  pub verification_stage :
      a.status ≡ Status.needs_verification → a.checkpoint_stage ≡ some Stage.verification
  pub verification_kind : a.status ≡ Status.needs_verification → a.verification_type ≢ none
  pub review_stage : a.status ≡ Status.needs_review → a.checkpoint_stage ≡ some Stage.review
  pub ready_stage :
      a.status ≡ Status.ready_to_submit → a.checkpoint_stage ≡ some Stage.ready_to_submit
  pub submitted_stage : a.status ≡ Status.submitted → a.checkpoint_stage ≡ some Stage.submitted
  pub submitted_time : a.status ≡ Status.submitted → a.submitted_at ≢ none
  pub failed_stage : a.status ≡ Status.failed → a.checkpoint_stage ≡ some Stage.failed
  pub failed_code : a.status ≡ Status.failed → a.failure_code ≢ none
  pub started : elem a.status active_statuses ≡ true → (0 < a.attempt_count) × (a.started_at ≢ none)
  pub submitted_started :
      a.status ≡ Status.submitted → (0 < a.attempt_count) × (a.started_at ≢ none)

new_attempt-IsConsistent : (id j : ℕ) (now : Instant) → IsConsistent (new_attempt id j now)
unfolding active_statuses elem
new_attempt-IsConsistent id j now = ground arith

moved-IsConsistent :
    (now : Instant) (new_status : Status) (d : Details) (a : Attempt)
    → elem new_status (allowed a.status) ≡ true
    → IsConsistent a
    → IsConsistent (apply_transition now new_status d a)
unfolding apply_transition allowed elem active_statuses
moved-IsConsistent now new_status d a h c = ground arith

checked-IsConsistent :
    (now : Instant) (url : Option Text) (stage : Option Stage) (a : Attempt)
    → elem a.status active_statuses ≡ true
    → stage_fits a.status stage ≡ true
    → IsConsistent a
    → IsConsistent (at_checkpoint now url stage a)
unfolding at_checkpoint elem active_statuses stage_statuses
checked-IsConsistent now url stage a h f c = ground arith

reset-IsConsistent : (now : Instant) (a : Attempt) → IsConsistent (reset_row now a)
unfolding reset_row active_statuses elem
reset-IsConsistent now a = ground arith

module _ {u : Unicode} where
  RowStep-IsConsistent : {a b : Attempt} → RowStep u a b → IsConsistent a → IsConsistent b
  RowStep-IsConsistent {a} (moved now new_status d h n) c =
      moved-IsConsistent now new_status d a h c
  RowStep-IsConsistent {a} (checked now url stage h f) c =
      checked-IsConsistent now url stage a h f c
  RowStep-IsConsistent {a} (restarted now h) c = reset-IsConsistent now a

  RowReach-IsConsistent : {a b : Attempt} → RowReach u a b → IsConsistent a → IsConsistent b
  RowReach-IsConsistent here c = c
  RowReach-IsConsistent (next r s) c = RowStep-IsConsistent s (RowReach-IsConsistent r c)

  History-IsConsistent :
      {l m : List Attempt} → History u l m → All IsConsistent l → All IsConsistent m
  History-IsConsistent done c = c
  History-IsConsistent (kept r h) c = (RowReach-IsConsistent r c.0, History-IsConsistent h c.1)
  History-IsConsistent (fresh i j now r h) c =
      (RowReach-IsConsistent r (new_attempt-IsConsistent i j now), History-IsConsistent h c)

  -- Every run of the service keeps each attempt's status in agreement with its stage, its failure
  -- code, its verification type, its times and its attempt count.
  pub service-IsConsistent :
      (s t : Session) → All IsConsistent s.attempts → Reach u s t → All IsConsistent t.attempts
  service-IsConsistent s t c r = History-IsConsistent (Reach-History r) c
