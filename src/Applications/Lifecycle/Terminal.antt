-- ===== src/Applications/Lifecycle/Terminal.antt =====
-- Submission is final and is reached in one way only: app/db/repository.py.
use mathlib.Core.Path.{subst}
use job_ping.Base.{
  ℕ, ◌≡◌, refl, ap, ◌∙◌, some, List, arith, inl, inr, true, nat_beq, Bool-cases, elem, nat_eq,
}
use job_ping.Applications.Models.{Status, Attempt, status_eq}
use job_ping.Applications.Secrets.Codes.{Unicode}
use job_ping.Applications.Repository.Checkpoint.{at_checkpoint, reset_row, active_statuses}
use job_ping.Applications.Lifecycle.History.{
  RowReach, History, RowStep, next, moved, fresh, checked, restarted, kept, here, done,
}
use job_ping.Applications.Repository.Store.{Session, find_attempt}
use job_ping.Applications.Lifecycle.Effect.{apply_transition-job_id}
use job_ping.Applications.Lifecycle.Reach.{Reach, Reach-History}
use job_ping.Applications.Repository.Transition.{allowed}

refused :
    (new_status old : Status) → old ≡ Status.submitted → elem new_status (allowed old) ≡ true → ⊥
unfolding allowed elem
refused new_status old e h = ground arith

inactive : (old : Status) → old ≡ Status.submitted → elem old active_statuses ≡ true → ⊥
unfolding active_statuses elem
inactive old e h = ground arith

module _ {u : Unicode} where
  RowStep-job_id : {a b : Attempt} → RowStep u a b → b.job_id ≡ a.job_id
  unfolding at_checkpoint reset_row
  RowStep-job_id {a} (moved now new_status d h n) = apply_transition-job_id now new_status d a
  RowStep-job_id (checked now url stage h f) = refl
  RowStep-job_id (restarted now h) = refl

  RowReach-job_id : {a b : Attempt} → RowReach u a b → b.job_id ≡ a.job_id
  RowReach-job_id here = refl
  RowReach-job_id (next r s) = RowStep-job_id s ∙ RowReach-job_id r

  -- A stored row is still found after any history, as a row that it reaches.
  pub History-find :
      (j : ℕ) {l m : List Attempt} (a : Attempt)
      → History u l m
      → find_attempt j l ≡ some a
      → (b : Attempt) × (find_attempt j m ≡ some b) × RowReach u a b
  History-find j a done h = absurd (ground arith)
  History-find j a (fresh id k now r t) h = absurd (ground arith)
  History-find j a (kept {a = c} {b = d} r t) h = elim (Bool-cases (nat_beq c.job_id j)) [
    | inl same ↦
        let eq : c ≡ a = ground arith in
        (d, ground (arith, RowReach-job_id r), subst (λ x. RowReach u x d) eq r)
    | inr other ↦
        let (b, there, path) = History-find j a t (ground arith) in
        (b, ground (arith, RowReach-job_id r), path)
  ]

  -- No change applies to a submitted row.
  pub submitted-stuck : {a b : Attempt} → a.status ≡ Status.submitted → RowStep u a b → ⊥
  submitted-stuck {a} e (moved now new_status d h n) = refused new_status a.status e h
  submitted-stuck {a} e (checked now url stage h f) = inactive a.status e h
  submitted-stuck e (restarted now h) = h e

  RowReach-submitted : {a b : Attempt} → a.status ≡ Status.submitted → RowReach u a b → b ≡ a
  RowReach-submitted e here = refl
  RowReach-submitted e (next r s) =
      let same = RowReach-submitted e r in
      absurd (submitted-stuck (ap (λ (x : Attempt). x.status) same ∙ e) s)

  -- Once a job's application is submitted, no run of the service changes any field of its row.
  pub submitted_forever :
      (j : ℕ) (a : Attempt) (s t : Session)
      → find_attempt j s.attempts ≡ some a
      → a.status ≡ Status.submitted
      → Reach u s t
      → find_attempt j t.attempts ≡ some a
  submitted_forever j a s t found e r =
      let (b, there, path) = History-find j a (Reach-History r) found in
      there ∙ ap some (RowReach-submitted e path)
