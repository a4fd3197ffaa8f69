-- ===== src/Evidence/Finish.antt =====
-- app/evidence/store.py finish: what a worker's documents make of the check that it claimed. That a document
-- is of another target raises, which the transaction rolls back, and is not modelled.
use job_ping.Evidence.Checks.{CheckStatus, check_status_eq, EvidenceCheck, hours, is_after}
use job_ping.Base.{
  nat_eq, ℕ, ◌+◌, Bool, true, false, not, ◌&&◌, ◌||◌, Option, none, some, List, [], ◌∷◌, Text,
  codes, is_empty, if◌then◌else◌, ◌==◌, elem, list_eq, option_eq,
}

-- What a worker hands to finish: the target that it collected, its error, whether each document is
-- complete and of the target, and what was stored and projected of them.
pub record Collected : Type 0 where
  pub target : Text
  pub error : Option Text
  pub completeness : List Bool
  pub ids : List ℕ
  pub projection : Text

-- The job as finish reads it: whether the check's occurrence is its latest and both are open, and its
-- target now.
pub record JobNow : Type 0 where
  pub is_current : Bool
  pub target : Text

unfoldable pub barrier_codes : List Text
barrier_codes =
    codes "verification_barrier"
    ∷ codes "employer_not_reviewed"
    ∷ codes "identity_mismatch"
    ∷ codes "role_scope_unverified"
    ∷ []

unfoldable pub is_barrier : Option Text → Bool
unfolding barrier_codes
is_barrier none = false
is_barrier (some e) = elem e barrier_codes

unfoldable pub all_true : List Bool → Bool
all_true [] = true
all_true (b ∷ bs) = b && all_true bs

-- `if error`, where the empty text is none.
unfoldable pub has_error : Option Text → Bool
has_error none = false
has_error (some e) = not (is_empty e)

-- `error or "incomplete_documents"`
unfoldable pub error_or_incomplete : Option Text → Text
error_or_incomplete none = codes "incomplete_documents"
error_or_incomplete (some e) = if is_empty e then codes "incomplete_documents" else e

-- `error or not documents or not all(document.complete for document in documents)`
unfoldable pub is_incomplete : Collected → Bool
unfolding all_true has_error
is_incomplete w = has_error w.error || is_empty w.completeness || not (all_true w.completeness)

unfoldable pub holds_lease : ℕ → ℕ → EvidenceCheck → Bool
unfolding is_after
holds_lease now token c =
    c.lease_token == some token && c.status == CheckStatus.running && is_after c.lease_until now

unfoldable pub target_changed : ℕ → EvidenceCheck → EvidenceCheck
target_changed now c = record c {
  status = CheckStatus.blocked;
  error_code = some (codes "target_changed");
  lease_token = none;
  lease_until = none;
  available_at = now + hours 1;
}

unfoldable pub short_of : ℕ → Collected → EvidenceCheck → EvidenceCheck
unfolding is_barrier error_or_incomplete
short_of now w c = record c {
  checked_at = some now;
  lease_token = none;
  lease_until = none;
  status =
      if not (is_empty w.completeness)
      then CheckStatus.partial
      else if is_barrier w.error
      then CheckStatus.blocked
      else CheckStatus.failed;
  error_code = some (error_or_incomplete w.error);
  available_at = now + hours 1;
  projection = elim c.projection [
    | none ↦ if is_empty w.completeness then none else some w.projection
    | some p ↦ some p
  ];
  document_ids = elim c.projection [
    | none ↦ if is_empty w.completeness then c.document_ids else w.ids
    | some p ↦ c.document_ids
  ];
}

unfoldable pub verified_check : ℕ → Collected → EvidenceCheck → EvidenceCheck
verified_check now w c = record c {
  checked_at = some now;
  lease_token = none;
  lease_until = none;
  projection = some w.projection;
  document_ids = w.ids;
  status = CheckStatus.complete;
  error_code = none;
  verified_at = some now;
  available_at = now;
}

unfoldable pub finish : ℕ → ℕ → Collected → JobNow → EvidenceCheck → Bool × EvidenceCheck
unfolding holds_lease is_incomplete target_changed short_of verified_check
finish now token w job c =
    if not (holds_lease now token c)
    then (false, c)
    else if not job.is_current || not (w.target == job.target) || not (c.target == w.target)
    then (false, target_changed now c)
    else if is_incomplete w
    then (true, short_of now w c)
    else (true, verified_check now w c)
