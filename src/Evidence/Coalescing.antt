-- ===== src/Evidence/Coalescing.antt =====
-- What app/evidence/store.py enqueue promises of repeated requests.
use job_ping.Evidence.Checks.{EvidenceCheck, new_check}
use job_ping.Evidence.Enqueue.{
  EnqueueRequest, checksum_of, is_invalidated, with_checksum, observed_row, is_due, requeued,
  enqueue_row, enqueue, recognized,
}
use job_ping.Base.{
  ◌≡◌, refl, inl, inr, Option, none, some, List, Text, list_eq, Bool-cases, ◌==◌, option_eq, nat_eq,
  ℕ, ap, Bool, true, false, not, arith,
}

checksum_of-with :
    (o : Text × Text) (sums : List (Text × Text))
    → checksum_of o.0 (with_checksum (some o) sums) ≡ some o.1
unfolding with_checksum checksum_of
checksum_of-with o sums = elim (Bool-cases (checksum_of o.0 sums == some o.1)) [
  | inl same ↦ rw same ((option_eq.equals_iff (checksum_of o.0 sums) (some o.1)).0 same)
  | inr other ↦ rw other (rw ((list_eq.equals_iff o.0 o.0).1 refl) refl)
]

known_sum :
    (o : Text × Text) (sums : List (Text × Text))
    → checksum_of o.0 sums ≡ some o.1
    → (checksum_of o.0 sums == some o.1) ≡ true
known_sum o sums h = (option_eq.equals_iff (checksum_of o.0 sums) (some o.1)).1 h

with_checksum-known :
    (o : Text × Text) (sums : List (Text × Text))
    → checksum_of o.0 sums ≡ some o.1
    → with_checksum (some o) sums ≡ sums
unfolding with_checksum
with_checksum-known o sums h = rw (known_sum o sums h) refl

with_checksum-again :
    (o : Option (Text × Text)) (sums : List (Text × Text))
    → with_checksum o (with_checksum o sums) ≡ with_checksum o sums
unfolding with_checksum
with_checksum-again none sums = refl
with_checksum-again (some o) sums =
    with_checksum-known o (with_checksum (some o) sums) (checksum_of-with o sums)

invalidated-again :
    (flag : Bool) (o : Option (Text × Text)) (sums : List (Text × Text))
    → is_invalidated flag o sums ≡ false
    → is_invalidated flag o (with_checksum o sums) ≡ false
unfolding is_invalidated with_checksum
invalidated-again flag none sums h = h
invalidated-again flag (some o) sums h =
    ap not (known_sum o (with_checksum (some o) sums) (checksum_of-with o sums))

due-again :
    (now : ℕ) (q : EnqueueRequest) (c : EvidenceCheck)
    → is_due now q c ≡ false
    → is_due now q (observed_row q c) ≡ false
unfolding is_due observed_row
due-again now q c h =
    ground (arith, invalidated-again q.invalidate (recognized q.observation) c.checksums)

observed_again :
    (q : EnqueueRequest) (c : EvidenceCheck) → observed_row q (observed_row q c) ≡ observed_row q c
unfolding observed_row
observed_again q c =
    let with_sums : List (Text × Text) → EvidenceCheck = λ x. record c { checksums = x } in
    ap with_sums (with_checksum-again (recognized q.observation) c.checksums)

requeued_again :
    (now : ℕ) (q : EnqueueRequest) (c : EvidenceCheck)
    → enqueue_row now q (requeued now q (observed_row q c)) ≡ requeued now q (observed_row q c)
unfolding enqueue_row requeued observed_row
requeued_again now q c = elim (Bool-cases (is_due now q (requeued now q (observed_row q c)))) [
  | inl due ↦ rw due (ap (requeued now q) (observed_again q c))
  | inr fresh ↦ rw fresh (ap (requeued now q) (observed_again q c))
]

row_again :
    (now : ℕ) (q : EnqueueRequest) (c : EvidenceCheck)
    → enqueue_row now q (enqueue_row now q c) ≡ enqueue_row now q c
unfolding enqueue_row
row_again now q c = elim (Bool-cases (is_due now q c)) [
  | inl due ↦ rw due (requeued_again now q c)
  | inr fresh ↦ rw fresh (rw (due-again now q c fresh) (observed_again q c))
]

-- A request that is made again at the same time changes nothing: the slot of an occurrence is one.
pub enqueue_again :
    (now : ℕ) (q : EnqueueRequest) (row : Option EvidenceCheck)
    → enqueue now q (some (enqueue now q row)) ≡ enqueue now q row
unfolding enqueue enqueue_row
enqueue_again now q none = row_again now q (new_check now q.occurrence_id q.target)
enqueue_again now q (some c) = row_again now q c
