-- ===== src/Evidence/Examples.antt =====
-- Runs of the evidence queue.
use job_ping.Evidence.Checks.{
  EvidenceCheck, CheckStatus, new_check, is_after, CheckStatus-discrete, check_status_eq,
}
use job_ping.Evidence.Enqueue.{EnqueueRequest}
use job_ping.Evidence.Finish.{Collected, JobNow, finish, is_incomplete}
use job_ping.Evidence.Claims.{claimed, claim, is_claimable}
use job_ping.Evidence.Leases.{IsVerified, claim_excludes, finish_accepted}
use job_ping.Base.{◌≡◌, refl, true, false, none, some, [], ◌∷◌, arith, codes, nat_eq, ◌≢◌, ◌↔◌}

abbrev fresh : EvidenceCheck
fresh = new_check 100 7 (codes "t")

abbrev older : EvidenceCheck
older = new_check 90 9 (codes "s")

abbrev held : EvidenceCheck
held = claimed 110 1 fresh

abbrev collected : Collected
collected = record {
  target = codes "t";
  error = none;
  completeness = true ∷ [];
  ids = 3 ∷ [];
  projection = codes "p";
}

abbrev partly : Collected
partly = record collected { completeness = false ∷ [] }

abbrev current_job : JobNow
current_job = record { is_current = true; target = codes "t" }

claim_excludes_example :
    (is_claimable 199 held ≡ false) × (finish 199 2 collected current_job held ≡ (false, held))
claim_excludes_example =
    claim_excludes 110 199 1 2 collected current_job fresh (omega arith) (λ e. omega (arith, e))

accepted : (finish 199 1 collected current_job held).0 ≡ true
unfolding finish CheckStatus-discrete claimed
accepted = refl

finish_accepted_example :
    let after = (finish 199 1 collected current_job held).1 in
    (held.lease_token ≡ some 1)
    × (held.status ≡ CheckStatus.running)
    × (is_after held.lease_until 199 ≡ true)
    × (current_job.is_current ≡ true)
    × (held.target ≡ collected.target)
    × (collected.target ≡ current_job.target)
    × (after.lease_token ≡ none)
    × (after.lease_until ≡ none)
    × ((after.status ≡ CheckStatus.complete) ↔ IsVerified collected)
    × (after.status ≢ CheckStatus.complete → after.error_code ≢ none)
finish_accepted_example = finish_accepted 199 1 collected current_job held accepted

abbrev projected : EvidenceCheck
projected = record held { projection = some (codes "old") }

partly_short : is_incomplete partly ≡ true
unfolding is_incomplete
partly_short = refl

takes_older : (claim 110 1 (fresh ∷ older ∷ [])).0 ≡ some (claimed 110 1 older)
unfolding claim CheckStatus-discrete
takes_older = refl

abbrev refresh : EnqueueRequest
refresh = record {
  occurrence_id = 7;
  target = codes "t2";
  refresh = true;
  invalidate = false;
  observation = some (codes "lever", codes "x");
}
