-- ===== src/Applications/Lifecycle/History.antt =====
-- What can happen to the rows of app/db/repository.py's applications: each row moves by the changes
-- that its methods make, none is removed, and new ones start queued.
use mathlib.Core.Path.{subst}
use job_ping.Base.{
  ℕ, ◌≡◌, ◌≢◌, true, false, Option, some, List, [], ◌∷◌, ◌++◌, arith, Text, elem, nat_eq, sym, inl,
  inr, nat_beq, Bool-cases,
}
use job_ping.Applications.Models.{Instant, Status, Stage, Attempt, status_eq}
use job_ping.Applications.Secrets.Codes.{Unicode}
use job_ping.Applications.Repository.Transition.{Details, allowed, has_secret, apply_transition}
use job_ping.Applications.Repository.Store.{new_attempt, find_attempt, put_attempt}
use job_ping.Applications.Repository.Checkpoint.{
  active_statuses, stage_fits, at_checkpoint, reset_row,
}

-- One write of an attempt.
pub data RowStep (u : Unicode) (a : Attempt) : Attempt → Type 0 where
  moved :
      (now : Instant) (new_status : Status) (d : Details)
      → elem new_status (allowed a.status) ≡ true
      → has_secret u d ≡ false
      → RowStep u a (apply_transition now new_status d a)
  checked :
      (now : Instant) (url : Option Text) (stage : Option Stage)
      → elem a.status active_statuses ≡ true
      → stage_fits a.status stage ≡ true
      → RowStep u a (at_checkpoint now url stage a)
  restarted : (now : Instant) → a.status ≢ Status.submitted → RowStep u a (reset_row now a)

pub data RowReach (u : Unicode) (a : Attempt) : Attempt → Type 0 where
  here : RowReach u a a
  next : {b c : Attempt} → RowReach u a b → RowStep u b c → RowReach u a c

pub data History (u : Unicode) : List Attempt → List Attempt → Type 0 where
  done : History u [] []
  kept :
      {a b : Attempt} {l m : List Attempt}
      → RowReach u a b
      → History u l m
      → History u (a ∷ l) (b ∷ m)
  fresh :
      {b : Attempt} {m : List Attempt} (id job_id : ℕ) (now : Instant)
      → RowReach u (new_attempt id job_id now) b
      → History u [] m
      → History u [] (b ∷ m)

module _ {u : Unicode} where
  pub RowReach-trans : {a b c : Attempt} → RowReach u a b → RowReach u b c → RowReach u a c
  RowReach-trans r here = r
  RowReach-trans r (next q s) = next (RowReach-trans r q) s

  pub History-refl : (l : List Attempt) → History u l l
  History-refl [] = done
  History-refl (a ∷ l) = kept here (History-refl l)

  pub History-trans : {l m n : List Attempt} → History u l m → History u m n → History u l n
  History-trans done h = h
  History-trans (kept r h) (kept q k) = kept (RowReach-trans r q) (History-trans h k)
  History-trans (fresh i j now r h) (kept q k) =
      fresh i j now (RowReach-trans r q) (History-trans h k)

  -- A new queued row goes behind the others.
  pub History-append :
      (id job_id : ℕ) (now : Instant) (l : List Attempt)
      → History u l (l ++ new_attempt id job_id now ∷ [])
  History-append id job_id now [] = fresh id job_id now here done
  History-append id job_id now (a ∷ l) = kept here (History-append id job_id now l)

  -- A write of the row that was found.
  pub History-put :
      (j : ℕ) (a b : Attempt) (l : List Attempt)
      → find_attempt j l ≡ some a
      → b.job_id ≡ j
      → RowStep u a b
      → History u l (put_attempt b l)
  History-put j a b [] h e s = absurd (ground arith)
  History-put j a b (c ∷ l) h e s = elim (Bool-cases (nat_beq c.job_id b.job_id)) [
    | inl same ↦
        let found : c ≡ a = ground arith in
        rw same (kept (next here (subst (λ x. RowStep u x b) (sym found) s)) (History-refl l))
    | inr other ↦ rw other (kept here (History-put j a b l (ground arith) e s))
  ]
