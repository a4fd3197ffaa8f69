-- ===== src/Applications/Lifecycle/Secrecy.antt =====
-- No verification secret is stored with an attempt: app/db/repository.py.
use job_ping.Base.{◌≡◌, refl, false, Option, none, some, List, [], ◌∷◌, arith, All, Text}
use job_ping.Applications.Models.{Instant, Status, Attempt}
use job_ping.Applications.Secrets.Codes.{
  Unicode, instruction_has_code, contains_verification_secret,
}
use job_ping.Applications.Secrets.Strip.{UnicodeLaws, contains_verification_secret-strip}
use job_ping.Applications.Repository.Transition.{stripped, apply_transition, has_secret, Details}
use job_ping.Applications.Repository.Checkpoint.{at_checkpoint, reset_row}
use job_ping.Applications.Lifecycle.History.{
  RowReach, History, next, kept, RowStep, fresh, here, moved, done, checked, restarted,
}
use job_ping.Applications.Repository.Store.{Session}
use job_ping.Applications.Lifecycle.Reach.{Reach, Reach-History}

pub record HoldsNoSecret (u : Unicode) (a : Attempt) : Type 0 where
  pub instruction : instruction_has_code u a.resume_instruction ≡ false
  pub message : contains_verification_secret u a.failure_message ≡ false
  pub question : contains_verification_secret u a.review_question ≡ false
  pub reason : contains_verification_secret u a.review_reason ≡ false

module _ (u : Unicode) (laws : UnicodeLaws u) where
  stripped_safe :
      (o : Option Text)
      → contains_verification_secret u o ≡ false
      → contains_verification_secret u (stripped o) ≡ false
  unfolding stripped contains_verification_secret
  stripped_safe none h = h
  stripped_safe (some []) h = h
  stripped_safe (some (c ∷ v)) h = contains_verification_secret-strip u laws (c ∷ v) h

  nothing_safe :
      (instruction_has_code u none ≡ false) × (contains_verification_secret u none ≡ false)
  unfolding instruction_has_code contains_verification_secret
  nothing_safe = (refl, refl)

  moved-HoldsNoSecret :
      (now : Instant) (new_status : Status) (d : Details) (a : Attempt)
      → has_secret u d ≡ false
      → HoldsNoSecret u a
      → HoldsNoSecret u (apply_transition now new_status d a)
  unfolding apply_transition has_secret
  moved-HoldsNoSecret now new_status d a h c =
      ground (arith, nothing_safe, stripped_safe d.review_question, stripped_safe d.review_reason)

  RowStep-HoldsNoSecret : {a b : Attempt} → RowStep u a b → HoldsNoSecret u a → HoldsNoSecret u b
  unfolding at_checkpoint reset_row
  RowStep-HoldsNoSecret {a} (moved now new_status d h n) c =
      moved-HoldsNoSecret now new_status d a n c
  RowStep-HoldsNoSecret {a} (checked now url stage h f) c = ground arith
  RowStep-HoldsNoSecret {a} (restarted now h) c = ground (arith, nothing_safe)

  RowReach-HoldsNoSecret : {a b : Attempt} → RowReach u a b → HoldsNoSecret u a → HoldsNoSecret u b
  RowReach-HoldsNoSecret here c = c
  RowReach-HoldsNoSecret (next r s) c = RowStep-HoldsNoSecret s (RowReach-HoldsNoSecret r c)

  History-HoldsNoSecret :
      {l m : List Attempt} → History u l m → All (HoldsNoSecret u) l → All (HoldsNoSecret u) m
  History-HoldsNoSecret done c = c
  History-HoldsNoSecret (kept r h) c = (RowReach-HoldsNoSecret r c.0, History-HoldsNoSecret h c.1)
  History-HoldsNoSecret (fresh i j now r h) c =
      (RowReach-HoldsNoSecret r (ground (arith, nothing_safe)), History-HoldsNoSecret h c)

  -- With Python's `\d` and casefold, no run of the service stores a resume instruction with a code of
  -- four to ten digits, nor a failure message, review question or review reason with a verification
  -- secret. The URLs of an attempt are not searched.
  pub service_stores_no_secret :
      (s t : Session)
      → All (HoldsNoSecret u) s.attempts
      → Reach u s t
      → All (HoldsNoSecret u) t.attempts
  service_stores_no_secret s t c r = History-HoldsNoSecret (Reach-History r) c
