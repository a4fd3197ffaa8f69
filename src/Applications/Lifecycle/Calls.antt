-- ===== src/Applications/Lifecycle/Calls.antt =====
-- Every call of app/applications/service.py moves the rows by the changes of `History`.
use mathlib.Core.Path.{subst}
use job_ping.Base.{
  ℕ, ◌≡◌, refl, Result, ok, err, suc, sym, ap, inl, inr, Option, some, [], ◌∷◌, ◌++◌, arith, Text,
  ◌∙◌, ◌≢◌, ◌⊎◌, true, none, Option-cases, elem, nat_eq, List,
}
use job_ping.Applications.Models.{Instant, Status, Stage, Attempt, status_eq}
use job_ping.Applications.Secrets.Codes.{Unicode}
use job_ping.Applications.Repository.Transition.{Details, transition_application}
use job_ping.Applications.Repository.Store.{
  Session, Error, new_attempt, ensure_application_attempt, find_attempt, put_attempt,
}
use job_ping.Applications.Lifecycle.Effect.{
  Prepared, Changed, transition_parts, transition_err, apply_transition-job_id,
}
use job_ping.Applications.Lifecycle.History.{
  History, History-refl, RowStep, History-append, moved, History-put, History-trans, checked,
  restarted,
}
use job_ping.Applications.Repository.Checkpoint.{
  update_application_checkpoint, reset_application, active_statuses, at_checkpoint, reset_row,
  stage_fits,
}
use job_ping.Applications.Repository.Rows.{find_attempt-append_new, find_attempt-job_id}

module _ (u : Unicode) (now : Instant) (job_id : ℕ) where
  appended :
      (s t : Session) (a : Attempt)
      → a ≡ new_attempt s.next_attempt_id job_id now
      → t ≡ record s { attempts = s.attempts ++ a ∷ []; next_attempt_id = suc s.next_attempt_id }
      → History u s.attempts t.attempts
  appended s t a new e =
      let rows : t.attempts ≡ s.attempts ++ new_attempt s.next_attempt_id job_id now ∷ [] =
        ground arith in
      subst (λ x. History u s.attempts x) (sym rows)
        (History-append s.next_attempt_id job_id now s.attempts)

  unchanged_rows : (l m : List Attempt) → m ≡ l → History u l m
  unchanged_rows l m e = subst (λ x. History u l x) (sym e) (History-refl l)

  written_History :
      (new_status : Status) (d : Details) (a b : Attempt) (s s' t : Session)
      → Prepared u now new_status d job_id s a s'
      → Changed u now new_status d a s' b t
      → History u s.attempts t.attempts
  written_History new_status d a b s s' t p c =
      let step : RowStep u a b =
        subst (λ x. RowStep u a x) (sym c.row) (moved now new_status d c.is_allowed c.no_secret) in
      let job : b.job_id ≡ job_id = ground (arith, apply_transition-job_id now new_status d a) in
      let found : find_attempt job_id s'.attempts ≡ some a =
        ground (arith, find_attempt-append_new job_id a s.attempts) in
      let rows : t.attempts ≡ put_attempt b s'.attempts = ground arith in
      let write : History u s'.attempts t.attempts =
        subst (λ x. History u s'.attempts x) (sym rows)
          (History-put job_id a b s'.attempts found job step) in
      elim p.stored [
        | inl (_, e) ↦ subst (λ (x : Session). History u x.attempts t.attempts) e write
        | inr (_, new, e) ↦ History-trans (appended s s' a new e) write
      ]

  pub transition_History :
      (new_status : Status) (d : Details) (s : Session)
      → History u s.attempts (transition_application u now job_id new_status d s).1.attempts
  transition_History new_status d s =
      go (transition_application u now job_id new_status d s).0
        (transition_application u now job_id new_status d s).1 refl
    where
      go :
          (r : Result Error Attempt) (t : Session)
          → transition_application u now job_id new_status d s ≡ (r, t)
          → History u s.attempts t.attempts
      go (ok b) t h =
          let (a, s', p, c) = transition_parts u now job_id new_status d b s t h in
          written_History new_status d a b s s' t p c
      go (err e) t h = elim (transition_err u now job_id new_status d e s t h) [
        | inl same ↦ unchanged_rows s.attempts t.attempts (ap (λ (x : Session). x.attempts) same)
        | inr (_, more) ↦ appended s t (new_attempt s.next_attempt_id job_id now) refl more
      ]

  ensure_rows :
      (s : Session)
      → let t = (ensure_application_attempt now job_id s).1 in
        (t ≡ s)
        ⊎ (t ≡ record s {
          attempts = s.attempts ++ new_attempt s.next_attempt_id job_id now ∷ [];
          next_attempt_id = suc s.next_attempt_id;
        })
  unfolding ensure_application_attempt
  ensure_rows s = ground arith

  pub ensure_History :
      (s : Session) → History u s.attempts (ensure_application_attempt now job_id s).1.attempts
  ensure_History s = elim (ensure_rows s) [
    | inl same ↦ unchanged_rows s.attempts _ (ap (λ (x : Session). x.attempts) same)
    | inr more ↦
        appended s (ensure_application_attempt now job_id s).1
          (new_attempt s.next_attempt_id job_id now) refl more
  ]

  -- A write of the found row by a step.
  one_step :
      (a b : Attempt) (l m : List Attempt)
      → find_attempt job_id l ≡ some a
      → b.job_id ≡ a.job_id
      → RowStep u a b
      → m ≡ put_attempt b l
      → History u l m
  one_step a b l m found job step rows =
      let here : a.job_id ≡ job_id = find_attempt-job_id job_id l a found in
      subst (λ x. History u l x) (sym rows) (History-put job_id a b l found (job ∙ here) step)

  checkpoint_rows :
      (url : Option Text) (stage : Option Stage) (a : Attempt) (s : Session)
      → find_attempt job_id s.attempts ≡ some a
      → let t = (update_application_checkpoint now job_id url stage s).1 in
        (t.attempts ≡ s.attempts)
        ⊎ (elem a.status active_statuses ≡ true)
          × (stage_fits a.status stage ≡ true)
          × (t.attempts ≡ put_attempt (at_checkpoint now url stage a) s.attempts)
  unfolding update_application_checkpoint
  checkpoint_rows url stage a s h = ground arith

  checkpoint_missing :
      (url : Option Text) (stage : Option Stage) (s : Session)
      → find_attempt job_id s.attempts ≡ none
      → (update_application_checkpoint now job_id url stage s).1.attempts ≡ s.attempts
  unfolding update_application_checkpoint
  checkpoint_missing url stage s h = ground arith

  at_checkpoint-job_id :
      (url : Option Text) (stage : Option Stage) (a : Attempt)
      → (at_checkpoint now url stage a).job_id ≡ a.job_id
  unfolding at_checkpoint
  at_checkpoint-job_id url stage a = refl

  pub checkpoint_History :
      (url : Option Text) (stage : Option Stage) (s : Session)
      → History u s.attempts (update_application_checkpoint now job_id url stage s).1.attempts
  checkpoint_History url stage s = elim (Option-cases (find_attempt job_id s.attempts)) [
    | inl missing ↦ unchanged_rows s.attempts _ (checkpoint_missing url stage s missing)
    | inr (a, found) ↦ elim (checkpoint_rows url stage a s found) [
      | inl same ↦ unchanged_rows s.attempts _ same
      | inr (active, fits, rows) ↦
          one_step a (at_checkpoint now url stage a) s.attempts _ found
            (at_checkpoint-job_id url stage a) (checked now url stage active fits) rows
    ]
  ]

  reset_rows :
      (a : Attempt) (s : Session)
      → find_attempt job_id s.attempts ≡ some a
      → let t = (reset_application now job_id s).1 in
        (t.attempts ≡ s.attempts)
        ⊎ (a.status ≢ Status.submitted) × (t.attempts ≡ put_attempt (reset_row now a) s.attempts)
  unfolding reset_application
  reset_rows a s h = ground arith

  reset_missing :
      (s : Session)
      → find_attempt job_id s.attempts ≡ none
      → (reset_application now job_id s).1.attempts ≡ s.attempts
        ⊎ ((reset_application now job_id s).1 ≡ (ensure_application_attempt now job_id s).1)
  unfolding reset_application
  reset_missing s h = ground arith

  reset_row-job_id : (a : Attempt) → (reset_row now a).job_id ≡ a.job_id
  unfolding reset_row
  reset_row-job_id a = refl

  pub reset_History :
      (s : Session) → History u s.attempts (reset_application now job_id s).1.attempts
  reset_History s = elim (Option-cases (find_attempt job_id s.attempts)) [
    | inl missing ↦ elim (reset_missing s missing) [
      | inl same ↦ unchanged_rows s.attempts _ same
      | inr e ↦ subst (λ (x : Session). History u s.attempts x.attempts) (sym e) (ensure_History s)
    ]
    | inr (a, found) ↦ elim (reset_rows a s found) [
      | inl same ↦ unchanged_rows s.attempts _ same
      | inr (live, rows) ↦
          one_step a (reset_row now a) s.attempts _ found (reset_row-job_id a) (restarted now live)
            rows
    ]
  ]
