-- ===== src/Evidence/Enqueue.antt =====
-- app/evidence/store.py enqueue: one slot for each occurrence, which repeated requests share.
use job_ping.Evidence.Checks.{
  CheckStatus, check_status_eq, EvidenceCheck, is_expired, is_recent, is_active, new_check,
}
use job_ping.Base.{
  nat_eq, ℕ, Bool, not, ◌&&◌, ◌||◌, Option, none, some, List, [], ◌∷◌, keep, Text, codes, leb,
  if◌then◌else◌, ◌==◌, elem, list_eq, option_eq,
}

-- What the caller of enqueue says: the target of the job now, the flags, and the observation's source
-- with the fingerprint of its details.
pub record EnqueueRequest : Type 0 where
  pub occurrence_id : ℕ
  pub target : Text
  pub refresh : Bool
  pub invalidate : Bool
  pub observation : Option (Text × Text)

unfoldable pub checksum_of : Text → List (Text × Text) → Option Text
checksum_of source [] = none
checksum_of source (s ∷ ss) =
    let rest = checksum_of source ss in if s.0 == source then some s.1 else rest

-- `recognized`
unfoldable pub recognized_sources : List Text
recognized_sources =
    codes "greenhouse"
    ∷ codes "lever"
    ∷ codes "workday"
    ∷ codes "amazon"
    ∷ codes "meta"
    ∷ codes "simplify"
    ∷ codes "github_markdown"
    ∷ codes "applyguy_internships"
    ∷ codes "applyguy_new_grad"
    ∷ []

unfoldable pub recognized : Option (Text × Text) → Option (Text × Text)
recognized none = none
recognized (some o) = if elem o.0 recognized_sources then some o else none

-- `check.ingestion_checksums.get(source) != fingerprint`, or the caller's flag.
unfoldable pub is_invalidated : Bool → Option (Text × Text) → List (Text × Text) → Bool
unfolding checksum_of
is_invalidated flag none sums = flag
is_invalidated flag (some o) sums = not (checksum_of o.0 sums == some o.1)

unfoldable pub with_checksum : Option (Text × Text) → List (Text × Text) → List (Text × Text)
unfolding checksum_of
with_checksum none sums = sums
with_checksum (some o) sums =
    if checksum_of o.0 sums == some o.1 then sums else o ∷ keep (λ s. not (s.0 == o.0)) sums

unfoldable pub observed_row : EnqueueRequest → EvidenceCheck → EvidenceCheck
unfolding with_checksum recognized
observed_row q c = record c { checksums = with_checksum (recognized q.observation) c.checksums }

unfoldable pub is_due : ℕ → EnqueueRequest → EvidenceCheck → Bool
unfolding is_invalidated recognized is_active is_expired is_recent
is_due now q c =
    not (c.target == q.target)
    || is_invalidated q.invalidate (recognized q.observation) c.checksums
    || not (is_active now c)
      && leb c.available_at now
      && (is_expired now c.verified_at || q.refresh && not (is_recent now c.verified_at))

unfoldable pub requeued : ℕ → EnqueueRequest → EvidenceCheck → EvidenceCheck
requeued now q c = record c {
  target = q.target;
  status = CheckStatus.queued;
  requested_at = now;
  available_at = now;
  lease_token = none;
  lease_until = none;
  error_code = none;
}

unfoldable pub enqueue_row : ℕ → EnqueueRequest → EvidenceCheck → EvidenceCheck
unfolding is_due observed_row requeued
enqueue_row now q c = if is_due now q c then requeued now q (observed_row q c) else observed_row q c

-- enqueue of an open occurrence of an open job, by the row that is there.
unfoldable pub enqueue : ℕ → EnqueueRequest → Option EvidenceCheck → EvidenceCheck
unfolding enqueue_row
enqueue now q none = enqueue_row now q (new_check now q.occurrence_id q.target)
enqueue now q (some c) = enqueue_row now q c
