-- ===== src/Evidence/Claims.antt =====
-- app/evidence/store.py claim: the first check that is due, under a lease of 90 seconds.
use job_ping.Evidence.Checks.{CheckStatus, check_status_eq, EvidenceCheck}
use job_ping.Base.{
  nat_eq, ℕ, ◌+◌, Bool, false, ◌&&◌, ◌||◌, Option, none, some, List, [], ◌∷◌, ltb, leb,
  if◌then◌else◌, ◌==◌,
}

-- `lease_until <= now` in SQL, where a missing time passes no comparison.
unfoldable pub is_over : Option ℕ → ℕ → Bool
is_over none now = false
is_over (some t) now = leb t now

unfoldable pub is_claimable : ℕ → EvidenceCheck → Bool
unfolding is_over
is_claimable now c =
    leb c.available_at now
    && (c.status == CheckStatus.queued
        || c.status == CheckStatus.running && is_over c.lease_until now)

unfoldable pub claimed : ℕ → ℕ → EvidenceCheck → EvidenceCheck
claimed now token c = record c {
  status = CheckStatus.running;
  lease_token = some token;
  lease_until = some (now + 90);
  attempts = c.attempts + 1;
}

-- ORDER BY requested_at, occurrence_id
unfoldable pub comes_first : EvidenceCheck → EvidenceCheck → Bool
comes_first a b =
    ltb a.requested_at b.requested_at
    || a.requested_at == b.requested_at && leb a.occurrence_id b.occurrence_id

unfoldable pub earlier_of : EvidenceCheck → Option EvidenceCheck → EvidenceCheck
unfolding comes_first
earlier_of a none = a
earlier_of a (some b) = if comes_first a b then a else b

unfoldable pub first_claimable : ℕ → List EvidenceCheck → Option EvidenceCheck
unfolding is_claimable earlier_of
first_claimable now [] = none
first_claimable now (c ∷ cs) =
    let rest = first_claimable now cs in
    if is_claimable now c then some (earlier_of c rest) else rest

unfoldable pub claim_in : ℕ → ℕ → ℕ → List EvidenceCheck → List EvidenceCheck
unfolding claimed
claim_in now token id [] = []
claim_in now token id (c ∷ cs) =
    let rest = claim_in now token id cs in
    if c.occurrence_id == id then claimed now token c ∷ rest else c ∷ rest

unfoldable pub claim_found :
    ℕ → ℕ → List EvidenceCheck → Option EvidenceCheck → Option EvidenceCheck × List EvidenceCheck
unfolding claim_in claimed
claim_found now token cs none = (none, cs)
claim_found now token cs (some c) =
    (some (claimed now token c), claim_in now token c.occurrence_id cs)

unfoldable pub claim : ℕ → ℕ → List EvidenceCheck → Option EvidenceCheck × List EvidenceCheck
unfolding first_claimable claim_found
claim now token cs = claim_found now token cs (first_claimable now cs)
