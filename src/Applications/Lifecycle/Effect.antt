-- ===== src/Applications/Lifecycle/Effect.antt =====
-- What a call of `transition_application` does to the rows, whether it returns or raises.
use mathlib.Core.Path.{subst}
use job_ping.Base.{
  ℕ, suc, ◌≡◌, ◌⊎◌, true, false, Option, none, some, [], ◌∷◌, ◌++◌, elem, ok, err, arith, ◌≢◌,
  >>=-eq-ok, >>=-eq-err, inl, inr, ◌∙◌, nat_eq, refl, sym, not, ◌&&◌, ◌==◌,
}
use job_ping.Applications.Models.{Instant, Status, status_eq, Attempt, Job}
use job_ping.Applications.Secrets.Codes.{Unicode}
use job_ping.Applications.Repository.Store.{
  Error, find_job, get_job_by_id, Session, find_attempt, put_attempt, new_attempt,
  get_application_attempt,
}
use job_ping.Applications.Repository.Transition.{
  closed_bars, job_for_new, Details, allowed, attempt_for, apply_transition, or_else, change_status,
  has_secret, transition_application,
}
use job_ping.Applications.Lifecycle.Assigned.{Assigned, apply_transition-Assigned}
use job_ping.Applications.Repository.Rows.{
  find_attempt-job_id, find_attempt-put_self, find_attempt-append_new, find_attempt-put_ne,
  find_attempt-append_ne,
}

pub apply_transition-job_id :
    (now : Instant) (new_status : Status) (d : Details) (a : Attempt)
    → (apply_transition now new_status d a).job_id ≡ a.job_id
unfolding apply_transition
apply_transition-job_id now new_status d a = ground arith

pub apply_transition-status :
    (now : Instant) (new_status : Status) (d : Details) (a : Attempt)
    → (apply_transition now new_status d a).status ≡ new_status
unfolding apply_transition
apply_transition-status now new_status d a = ground arith

pub get_application_attempt_ok :
    (job_id : ℕ) (found : Option Attempt) (s t : Session)
    → get_application_attempt job_id s ≡ (ok found, t)
    → (found ≡ find_attempt job_id s.attempts) × (t ≡ s)
unfolding get_application_attempt
get_application_attempt_ok job_id found s t h = ground arith

pub get_application_attempt_err :
    (job_id : ℕ) (e : Error) (s t : Session) → get_application_attempt job_id s ≡ (err e, t) → t ≡ s
unfolding get_application_attempt
get_application_attempt_err job_id e s t h = ground arith

-- The posting is stored, and it is open or the move is one to `failed`.
pub record CanMove (new_status : Status) (job_id : ℕ) (s : Session) : Type 0 where
  pub job : Job
  pub is_stored : find_job job_id s.jobs ≡ some job
  pub is_open : job.is_closed ≡ true → new_status ≡ Status.failed

closed_test :
    (new_status : Status) (job : Job)
    → not (job.is_closed && not (new_status == Status.failed)) ≡ true
    → job.is_closed ≡ true
    → new_status ≡ Status.failed
closed_test new_status job h k = ground (arith, status_eq.equals_iff new_status Status.failed)

closed_bars_ok :
    (new_status : Status) (o : Option Job) (s t : Session)
    → closed_bars new_status o s ≡ (ok tt, t)
    → (job : Job) × (o ≡ some job) × (job.is_closed ≡ true → new_status ≡ Status.failed)
closed_bars_ok new_status none s t h = absurd (ground arith)
closed_bars_ok new_status (some job) s t h = (job, refl, closed_test new_status job (ground arith))

job_for_new_ok :
    (new_status : Status) (o : Option Job) (s t : Session)
    → job_for_new new_status o s ≡ (ok tt, t)
    → (job : Job) × (o ≡ some job) × (job.is_closed ≡ true → new_status ≡ Status.failed)
job_for_new_ok new_status none s t h = absurd (ground arith)
job_for_new_ok new_status (some job) s t h = (job, refl, closed_test new_status job (ground arith))

get_job_by_id_ok :
    (job_id : ℕ) (o : Option Job) (s t : Session)
    → get_job_by_id job_id s ≡ (ok o, t)
    → (o ≡ find_job job_id s.jobs) × (t ≡ s)
unfolding get_job_by_id
get_job_by_id_ok job_id o s t h = ground arith

attempt_for-CanMove :
    (now : Instant) (job_id : ℕ) (new_status : Status) (found : Option Attempt) (a : Attempt)
    (s t : Session)
    → found ≡ find_attempt job_id s.attempts
    → attempt_for now job_id new_status found s ≡ (ok a, t)
    → CanMove new_status job_id s
unfolding attempt_for
attempt_for-CanMove now job_id new_status none a s t e h =
    let (o, s1, first, rest) = >>=-eq-ok (get_job_by_id job_id) _ s t h in
    let (checked, s2, second, last) = >>=-eq-ok (job_for_new new_status o) _ s1 t rest in
    let (job, is, can) = job_for_new_ok new_status o s1 s2 second in
    record {
      job = job;
      is_stored = sym (get_job_by_id_ok job_id o s s1 first).0 ∙ is;
      is_open = can;
    }
attempt_for-CanMove now job_id new_status (some b) a s t e h =
    let (checked, s2, second, last) =
      >>=-eq-ok (closed_bars new_status (find_job b.job_id s.jobs)) _ s t h in
    let (job, is, can) = closed_bars_ok new_status (find_job b.job_id s.jobs) s s2 second in
    record {
      job = job;
      is_stored = rw⁻¹ (find_attempt-job_id job_id s.attempts b (sym e)) is;
      is_open = can;
    }

module _ (u : Unicode) (now : Instant) (new_status : Status) (d : Details) where
  -- A status change that returns has passed its checks and has written the new row.
  pub record Changed (a : Attempt) (s : Session) (b : Attempt) (t : Session) : Type 0 where
    pub is_allowed : elem new_status (allowed a.status) ≡ true
    pub no_secret : has_secret u d ≡ false
    pub row : b ≡ apply_transition now new_status d a
    pub session : t ≡ record s { attempts = put_attempt b s.attempts }

  pub change_status_ok :
      (a b : Attempt) (s t : Session)
      → change_status u now new_status d a s ≡ (ok b, t)
      → Changed a s b t
  unfolding change_status
  change_status_ok a b s t h = ground arith

  pub change_status_err :
      (a : Attempt) (e : Error) (s t : Session)
      → change_status u now new_status d a s ≡ (err e, t)
      → t ≡ s
  unfolding change_status
  change_status_err a e s t h = ground arith

  -- The row to change: the stored one, or a new one behind the stored ones.
  pub record Prepared (job_id : ℕ) (s : Session) (a : Attempt) (t : Session) : Type 0 where
    pub job : a.job_id ≡ job_id
    pub stored :
        (find_attempt job_id s.attempts ≡ some a) × (t ≡ s)
        ⊎ (find_attempt job_id s.attempts ≡ none)
          × (a ≡ new_attempt s.next_attempt_id job_id now)
          × (t ≡ record s {
            attempts = s.attempts ++ a ∷ [];
            next_attempt_id = suc s.next_attempt_id;
          })

  pub attempt_for_ok :
      (job_id : ℕ) (found : Option Attempt) (a : Attempt) (s t : Session)
      → found ≡ find_attempt job_id s.attempts
      → attempt_for now job_id new_status found s ≡ (ok a, t)
      → Prepared job_id s a t
  unfolding attempt_for
  attempt_for_ok job_id found a s t e h = ground (arith, find_attempt-job_id job_id s.attempts a)

  pub attempt_for_err :
      (job_id : ℕ) (found : Option Attempt) (e : Error) (s t : Session)
      → attempt_for now job_id new_status found s ≡ (err e, t)
      → t ≡ s
  unfolding attempt_for
  attempt_for_err job_id found e s t h = ground arith

-- The attempt that a call starts from: the stored one, or a queued one that it creates.
unfoldable pub row_before : Instant → ℕ → Session → Attempt
row_before now job_id s =
    or_else (find_attempt job_id s.attempts) (new_attempt s.next_attempt_id job_id now)

pub record Moved (u : Unicode) (now : Instant) (job_id : ℕ) (new_status : Status) (d : Details)
    (s : Session) (b : Attempt) (t : Session) : Type 0 where
  pub posting : CanMove new_status job_id s
  pub is_allowed : elem new_status (allowed (row_before now job_id s).status) ≡ true
  pub no_secret : has_secret u d ≡ false
  pub row : Assigned now new_status d (row_before now job_id s) b
  pub written : find_attempt job_id t.attempts ≡ some b
  pub others : (j : ℕ) → j ≢ job_id → find_attempt j t.attempts ≡ find_attempt j s.attempts
  pub jobs : t.jobs ≡ s.jobs
  pub answers : t.answers ≡ s.answers

module _ (u : Unicode) (now : Instant) (job_id : ℕ) (new_status : Status) (d : Details) where
  Prepared-Changed :
      (a b : Attempt) (s s' t : Session)
      → CanMove new_status job_id s
      → Prepared u now new_status d job_id s a s'
      → Changed u now new_status d a s' b t
      → Moved u now job_id new_status d s b t
  unfolding row_before
  Prepared-Changed a b s s' t m p c = record {
    posting = m;
    is_allowed = ground arith;
    no_secret = c.no_secret;
    row =
        let same : b ≡ apply_transition now new_status d (row_before now job_id s) = ground arith in
        subst (Assigned now new_status d (row_before now job_id s)) (sym same)
          (apply_transition-Assigned now new_status d (row_before now job_id s));
    written = ground (
      arith,
      apply_transition-job_id now new_status d a,
      find_attempt-put_self job_id b a s'.attempts,
      find_attempt-append_new job_id a s.attempts,
    );
    others = λ j n. ground (
      arith,
      apply_transition-job_id now new_status d a,
      find_attempt-put_ne j b s'.attempts,
      find_attempt-append_ne j a s.attempts,
    );
    jobs = ground arith;
    answers = ground arith;
  }

  -- The two halves of a call that returns: the row was prepared, and then changed.
  pub transition_parts :
      (b : Attempt) (s t : Session)
      → transition_application u now job_id new_status d s ≡ (ok b, t)
      → (a : Attempt) × (s' : Session) × Prepared u now new_status d job_id s a s'
        × Changed u now new_status d a s' b t
  unfolding transition_application
  transition_parts b s t h =
      let (found, s1, first, rest) = >>=-eq-ok (get_application_attempt job_id) _ s t h in
      let (a, s2, second, last) = >>=-eq-ok (attempt_for now job_id new_status found) _ s1 t rest in
      let (here, unchanged) = get_application_attempt_ok job_id found s s1 first in
      let e : attempt_for now job_id new_status found s ≡ (ok a, s2) =
        subst (λ x. attempt_for now job_id new_status found x ≡ (ok a, s2)) unchanged second in
      (
        a,
        s2,
        attempt_for_ok u now new_status d job_id found a s s2 here e,
        change_status_ok u now new_status d a b s2 t last,
      )

  transition-CanMove :
      (b : Attempt) (s t : Session)
      → transition_application u now job_id new_status d s ≡ (ok b, t)
      → CanMove new_status job_id s
  unfolding transition_application
  transition-CanMove b s t h =
      let (found, s1, first, rest) = >>=-eq-ok (get_application_attempt job_id) _ s t h in
      let (a, s2, second, last) = >>=-eq-ok (attempt_for now job_id new_status found) _ s1 t rest in
      let (here, unchanged) = get_application_attempt_ok job_id found s s1 first in
      attempt_for-CanMove now job_id new_status found a s s2 here
        (subst (λ x. attempt_for now job_id new_status found x ≡ (ok a, s2)) unchanged second)

  pub transition_ok :
      (b : Attempt) (s t : Session)
      → transition_application u now job_id new_status d s ≡ (ok b, t)
      → Moved u now job_id new_status d s b t
  transition_ok b s t h =
      let (a, s', p, c) = transition_parts b s t h in
      Prepared-Changed a b s s' t (transition-CanMove b s t h) p c

  -- A call that raises has changed no row: at most it has put a queued one behind them.
  pub transition_err :
      (e : Error) (s t : Session)
      → transition_application u now job_id new_status d s ≡ (err e, t)
      → (t ≡ s)
        ⊎ (find_attempt job_id s.attempts ≡ none)
          × (t ≡ record s {
            attempts = s.attempts ++ new_attempt s.next_attempt_id job_id now ∷ [];
            next_attempt_id = suc s.next_attempt_id;
          })
  unfolding transition_application
  transition_err e s t h = elim (>>=-eq-err (get_application_attempt job_id) _ s t h) [
    | inl first ↦ inl (get_application_attempt_err job_id e s t first)
    | inr (found, s1, first, rest) ↦
        let (here, unchanged) = get_application_attempt_ok job_id found s s1 first in
        elim (>>=-eq-err (attempt_for now job_id new_status found) _ s1 t rest) [
          | inl second ↦
              inl (attempt_for_err u now new_status d job_id found e s1 t second ∙ unchanged)
          | inr (a, s2, second, last) ↦
              let again : attempt_for now job_id new_status found s ≡ (ok a, s2) =
                rw (← unchanged) second in
              let p = attempt_for_ok u now new_status d job_id found a s s2 here again in
              let q = change_status_err u now new_status d a e s2 t last in
              ground (arith, p.stored, q)
        ]
  ]
