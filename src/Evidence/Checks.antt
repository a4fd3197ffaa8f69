-- ===== src/Evidence/Checks.antt =====
-- app/evidence/store.py and the rows of EvidenceCheck that it keeps. Times are seconds, a lease
-- token is a number in place of a UUID, and a check's target and projection are their digests. What
-- extract and reconcile make of the documents is an argument, as are the ids of the stored documents.
use job_ping.Base.{
  nat_eq, ℕ, ◌+◌, ◌*◌, Bool, true, false, ◌&&◌, ◌||◌, Option, none, some, List, [], Text, ltb, leb,
  ◌==◌, discrete_eq, Eq,
}

pub data CheckStatus : Type 0 where
  queued : CheckStatus
  running : CheckStatus
  complete : CheckStatus
  partial : CheckStatus
  blocked : CheckStatus
  failed : CheckStatus

unfoldable pub CheckStatus-discrete : Discrete CheckStatus
CheckStatus-discrete = hlevel

instance abbrev pub check_status_eq : Eq CheckStatus
check_status_eq = discrete_eq CheckStatus-discrete

pub record EvidenceCheck : Type 0 where
  pub occurrence_id : ℕ
  pub target : Text
  pub status : CheckStatus
  pub requested_at : ℕ
  pub available_at : ℕ
  pub lease_token : Option ℕ
  pub lease_until : Option ℕ
  pub checked_at : Option ℕ
  pub verified_at : Option ℕ
  pub projection : Option Text
  pub document_ids : List ℕ
  pub checksums : List (Text × Text)
  pub error_code : Option Text
  pub attempts : ℕ

abbrev pub hours : ℕ → ℕ
hours n = n * 3600

-- `time and utc(time) > now`
unfoldable pub is_after : Option ℕ → ℕ → Bool
is_after none now = false
is_after (some t) now = ltb now t

-- `not verified_at or verified_at <= now - timedelta(hours=24)`
unfoldable pub is_expired : ℕ → Option ℕ → Bool
is_expired now none = true
is_expired now (some t) = leb (t + hours 24) now

-- `verified_at and verified_at > now - timedelta(hours=1)`
unfoldable pub is_recent : ℕ → Option ℕ → Bool
is_recent now none = false
is_recent now (some t) = ltb now (t + hours 1)

unfoldable pub is_active : ℕ → EvidenceCheck → Bool
unfolding is_after
is_active now c =
    c.status == CheckStatus.queued || c.status == CheckStatus.running && is_after c.lease_until now

-- The row that enqueue inserts on no conflict.
abbrev pub new_check : ℕ → ℕ → Text → EvidenceCheck
new_check now occurrence_id target = record {
  occurrence_id = occurrence_id;
  target = target;
  status = CheckStatus.queued;
  requested_at = now;
  available_at = now;
  lease_token = none;
  lease_until = none;
  checked_at = none;
  verified_at = none;
  projection = none;
  document_ids = [];
  checksums = [];
  error_code = none;
  attempts = 0;
}
