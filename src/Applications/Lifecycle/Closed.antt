-- ===== src/Applications/Lifecycle/Closed.antt =====
-- A closed posting in app/db/repository.py: its application can only fail.
use mathlib.Core.Path.{subst}
use job_ping.Base.{ℕ, ◌≡◌, ◌⊎◌, true, false, Option, some, arith, ok, ◌<◌, >>=-eq-ok, Text, err}
use job_ping.Applications.Models.{Instant, Status, Attempt, Job}
use job_ping.Applications.Secrets.Codes.{Unicode}
use job_ping.Applications.Repository.Transition.{attempt_for, transition_application, Details}
use job_ping.Applications.Repository.Store.{
  Session, find_attempt, find_job, get_application_attempt, ensure_application_attempt, job_closed,
}
use job_ping.Applications.Repository.Rows.{find_attempt-job_id}
use job_ping.Applications.Service.{start_application}
use job_ping.Applications.Lifecycle.Effect.{get_application_attempt_ok}

module _ (u : Unicode) (now : Instant) (job_id : ℕ) where
  attempt_for_open :
      (new_status : Status) (found : Option Attempt) (a : Attempt) (job : Job) (s t : Session)
      → found ≡ find_attempt job_id s.attempts
      → find_job job_id s.jobs ≡ some job
      → attempt_for now job_id new_status found s ≡ (ok a, t)
      → (job.is_closed ≡ false) ⊎ (new_status ≡ Status.failed)
  unfolding attempt_for
  attempt_for_open new_status found a job s t e k h =
      ground (arith, find_attempt-job_id job_id s.attempts a)

  -- For a closed posting the only transition that returns is the one to `failed`.
  pub closed_refuses :
      (new_status : Status) (d : Details) (b : Attempt) (job : Job) (s t : Session)
      → find_job job_id s.jobs ≡ some job
      → job.is_closed ≡ true
      → transition_application u now job_id new_status d s ≡ (ok b, t)
      → new_status ≡ Status.failed
  unfolding transition_application
  closed_refuses new_status d b job s t k closed h =
      let (found, s1, first, rest) = >>=-eq-ok (get_application_attempt job_id) _ s t h in
      let (a, s2, second, last) = >>=-eq-ok (attempt_for now job_id new_status found) _ s1 t rest in
      let (here, unchanged) = get_application_attempt_ok job_id found s s1 first in
      let e : attempt_for now job_id new_status found s ≡ (ok a, s2) =
        subst (λ x. attempt_for now job_id new_status found x ≡ (ok a, s2)) unchanged second in
      ground (arith, attempt_for_open new_status found a job s s2 here k e)

  -- For a closed posting a start and a creation raise `job_closed` and change nothing.
  pub closed_stops :
      (url : Option Text) (job : Job) (s : Session)
      → 0 < job_id
      → find_job job_id s.jobs ≡ some job
      → job.is_closed ≡ true
      → (start_application u now job_id url s ≡ (err job_closed, s))
        × (ensure_application_attempt now job_id s ≡ (err job_closed, s))
  unfolding start_application ensure_application_attempt
  closed_stops url job s pos k closed = ground arith
