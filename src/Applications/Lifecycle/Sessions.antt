-- ===== src/Applications/Lifecycle/Sessions.antt =====
-- Sequences of calls: app/applications/service.py and app/applications/queue.py, between which the
-- ingestion may change the postings.
use job_ping.Base.{
  ℕ, Bool, true, false, not, Option, none, some, pure, raise, gets, guard, and_then, ◌>>=◌, ◌>>◌,
  Text, ltb, Result, ok, err,
}
use job_ping.Applications.Models.{Instant, Status, Stage, Job}
use job_ping.Applications.Secrets.Codes.{Unicode}
use job_ping.Applications.Repository.Store.{
  M, Error, Session, ensure_application_attempt, get_job_by_id, get_application_attempt, open_job,
  bad_job_id, job_not_found, job_closed,
}
use job_ping.Applications.Repository.Transition.{Details, transition_application}
use job_ping.Applications.Repository.Checkpoint.{update_application_checkpoint}
use job_ping.Applications.Service.{start_application}
use job_ping.Applications.Lifecycle.History.{History, History-refl, History-trans}
use job_ping.Applications.Lifecycle.Calls.{checkpoint_History, ensure_History, transition_History}

-- The actions that keep the history of the rows, whatever they return.
pub record Evolves (u : Unicode) {A : Type 0} (m : M A) : Type 0 where
  pub rows : (s : Session) → History u s.attempts (m s).1.attempts

module _ {u : Unicode} where
  Evolves-and_then :
      {A B : Type 0} (r : Result Error A) (f : A → M B) (s t : Session)
      → History u s.attempts t.attempts
      → ((a : A) → Evolves u (f a))
      → History u s.attempts (and_then r f t).1.attempts
  Evolves-and_then (ok a) f s t h ef = History-trans h ((ef a).rows t)
  Evolves-and_then (err e) f s t h ef = h

  pub Evolves-bind :
      {A B : Type 0} (m : M A) (f : A → M B)
      → Evolves u m
      → ((a : A) → Evolves u (f a))
      → Evolves u (m >>= f)
  Evolves-bind m f em ef = record {
    rows = λ s. Evolves-and_then (m s).0 f s (m s).1 (em.rows s) ef;
  }

  pub Evolves-seq :
      {A B : Type 0} (m : M A) (k : M B) → Evolves u m → Evolves u k → Evolves u (m >> k)
  Evolves-seq m k em ek = record {
    rows = λ s. Evolves-and_then (m s).0 (λ _. k) s (m s).1 (em.rows s) (λ _. ek);
  }

  pub Evolves-pure : {A : Type 0} (a : A) → Evolves u (pure {E = Error} {S = Session} a)
  Evolves-pure a = record { rows = λ s. History-refl s.attempts }

  Evolves-raise : {A : Type 0} (e : Error) → Evolves u (raise {E = Error} {S = Session} {A = A} e)
  Evolves-raise e = record { rows = λ s. History-refl s.attempts }

  pub Evolves-gets : {A : Type 0} (f : Session → A) → Evolves u (gets {E = Error} f)
  Evolves-gets f = record { rows = λ s. History-refl s.attempts }

  pub Evolves-guard : (b : Bool) (e : Error) → Evolves u (guard {E = Error} {S = Session} b e)
  Evolves-guard true e = record { rows = λ s. History-refl s.attempts }
  Evolves-guard false e = record { rows = λ s. History-refl s.attempts }

  pub Evolves-transition :
      (now : Instant) (job_id : ℕ) (new_status : Status) (d : Details)
      → Evolves u (transition_application u now job_id new_status d)
  Evolves-transition now job_id new_status d = record {
    rows = transition_History u now job_id new_status d;
  }

  Evolves-checkpoint :
      (now : Instant) (job_id : ℕ) (url : Option Text) (stage : Option Stage)
      → Evolves u (update_application_checkpoint now job_id url stage)
  Evolves-checkpoint now job_id url stage = record {
    rows = checkpoint_History u now job_id url stage;
  }

  pub Evolves-ensure :
      (now : Instant) (job_id : ℕ) → Evolves u (ensure_application_attempt now job_id)
  Evolves-ensure now job_id = record { rows = ensure_History u now job_id }

  Evolves-get_job : (job_id : ℕ) → Evolves u (get_job_by_id job_id)
  unfolding get_job_by_id
  Evolves-get_job job_id =
      Evolves-seq _ _ (Evolves-guard (ltb 0 job_id) bad_job_id) (Evolves-gets _)

  pub Evolves-get_attempt : (job_id : ℕ) → Evolves u (get_application_attempt job_id)
  unfolding get_application_attempt
  Evolves-get_attempt job_id =
      Evolves-seq _ _ (Evolves-guard (ltb 0 job_id) bad_job_id) (Evolves-gets _)

  Evolves-open_job : (job : Option Job) → Evolves u (open_job job)
  Evolves-open_job none = Evolves-raise job_not_found
  Evolves-open_job (some job) =
      Evolves-seq _ _ (Evolves-guard (not job.is_closed) job_closed) (Evolves-pure job)

  pub Evolves-start :
      (now : Instant) (job_id : ℕ) (url : Option Text)
      → Evolves u (start_application u now job_id url)
  unfolding start_application
  Evolves-start now job_id url = Evolves-bind _ _ (Evolves-get_job job_id) λ job.
      Evolves-seq _ _ (Evolves-open_job job) (
        Evolves-seq _ _ (Evolves-transition now job_id Status.in_progress _)
          (Evolves-checkpoint now job_id url (some Stage.opened)))
