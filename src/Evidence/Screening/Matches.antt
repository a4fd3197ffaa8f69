-- ===== src/Evidence/Screening/Matches.antt =====
-- What a job has for which app/evidence/screening.py evaluate gives `matches`.
use job_ping.Base.{
  ℕ, ◌≡◌, refl, Bool, true, false, ◌||◌, Option, some, List, [], ◌∷◌, ◌++◌, arith, keep, Text,
  codes, is_empty, leb, ◌==◌, nat_eq, list_eq,
}
use mathlib.Core.Path.{subst}
use job_ping.Evidence.Screening.Facts.{
  Requirements, Facts, JobKind, Authorization, FilingRecord, stated_policy, needs_work_auth, needed,
  facts_of, authorization_key, floor_for,
}
use job_ping.Evidence.Screening.Findings.{
  Findings, Reason, ◌<+>◌, policy_findings, restriction_findings, restriction_values, passing,
  reviewing, failing, sponsorship_findings,
}
use job_ping.Evidence.Screening.Evaluate.{
  verdict_of, location_findings, pay_findings, findings, ScreeningBucket, pay_judged, accepted_keys,
  evaluate, is_accepted_key, evaluate_configured, maximum_of, is_unfit, amounts_of, applies,
}

-- Nothing that fails, and nothing to review.
record IsClean (f : Findings) : Type 0 where
  no_fails : f.fails ≡ []
  no_reviews : f.reviews ≡ []

append-left : (xs ys : List Reason) → xs ++ ys ≡ [] → xs ≡ []
append-left [] ys h = refl
append-left (x ∷ xs) ys h = ground arith

append-right : (xs ys : List Reason) → xs ++ ys ≡ [] → ys ≡ []
append-right [] ys h = h
append-right (x ∷ xs) ys h = absurd (ground arith)

IsClean-left : (f g : Findings) → IsClean (f <+> g) → IsClean f
unfolding ◌<+>◌
IsClean-left f g c = record {
  no_fails = append-left f.fails g.fails c.no_fails;
  no_reviews = append-left f.reviews g.reviews c.no_reviews;
}

IsClean-right : (f g : Findings) → IsClean (f <+> g) → IsClean g
unfolding ◌<+>◌
IsClean-right f g c = record {
  no_fails = append-right f.fails g.fails c.no_fails;
  no_reviews = append-right f.reviews g.reviews c.no_reviews;
}

verdict-IsClean :
    (f : Findings) → (verdict_of f).screening_bucket ≡ ScreeningBucket.matches → IsClean f
unfolding verdict_of
verdict-IsClean f h = record { no_fails = ground arith; no_reviews = ground arith }

clean_policy :
    (a : Authorization) (d : Facts)
    → IsClean (policy_findings (some a) d)
    → (stated_policy (authorization_key a) d.policies == codes "allowed") ≡ true
unfolding policy_findings passing failing reviewing
clean_policy a d c = ground (arith, c.no_fails, c.no_reviews)

clean_restrictions :
    (p : Requirements) (d : Facts)
    → IsClean (restriction_findings p d)
    → needs_work_auth p ≡ true
    → restriction_values d ≡ []
unfolding restriction_findings passing failing reviewing restriction_values ◌<+>◌
clean_restrictions p d c h = ground (arith, c.no_fails, c.no_reviews)

clean_location :
    (accepted : List Text) (d : Facts)
    → IsClean (location_findings accepted d)
    → (is_empty accepted || is_accepted_key accepted d.location) ≡ true
unfolding location_findings reviewing
clean_location accepted d c = ground (arith, c.no_reviews)

clean_pay :
    (p : Requirements) (accepted : List Text) (kind : JobKind) (d : Facts) (floor : ℕ)
    → IsClean (pay_findings p accepted kind d (some floor))
    → (d.pay_conflicting ≡ false)
      × (leb floor (maximum_of (amounts_of (keep (applies p accepted kind) d.compensation))) ≡ true)
unfolding pay_findings pay_judged passing failing reviewing
clean_pay p accepted kind d floor c =
    (ground (arith, c.no_fails, c.no_reviews), ground (arith, c.no_fails, c.no_reviews))

-- What a match promises of a job.
pub record Promises (location_key : Text → Text) (p : Requirements) (d : Facts) (kind : JobKind)
    : Type 0 where
  pub allows :
      (a : Authorization)
      → needed p.authorization ≡ some a
      → (stated_policy (authorization_key a) d.policies == codes "allowed") ≡ true
  pub unrestricted_role : needs_work_auth p ≡ true → restriction_values d ≡ []
  pub is_placed :
      (is_empty (accepted_keys location_key p)
        || is_accepted_key (accepted_keys location_key p) d.location)
      ≡ true
  pub pays :
      (floor : ℕ)
      → floor_for p kind ≡ some floor
      → (d.pay_conflicting ≡ false)
        × (leb floor (
              maximum_of
                (amounts_of (keep (applies p (accepted_keys location_key p) kind) d.compensation)))
            ≡ true)

clean-Promises :
    (location_key : Text → Text) (p : Requirements) (d : Facts) (kind : JobKind)
    (rs : List FilingRecord)
    → IsClean (findings location_key p d kind rs)
    → Promises location_key p d kind
unfolding findings
clean-Promises location_key p d kind rs c =
    let accepted = accepted_keys location_key p in
    let c1 = IsClean-right (restriction_findings p d) _ c in
    let c2 = IsClean-right (policy_findings (needed p.authorization) d) _ c1 in
    let c3 = IsClean-right (sponsorship_findings p d rs) _ c2 in
    let c4 = IsClean-right (location_findings accepted d) _ c3 in
    record {
      allows = λ a e. clean_policy a d (
          subst (λ (o : Option Authorization). IsClean (policy_findings o d)) e
            (IsClean-left (policy_findings (needed p.authorization) d) _ c1));
      unrestricted_role = clean_restrictions p d (IsClean-left (restriction_findings p d) _ c);
      is_placed = clean_location accepted d (IsClean-left (location_findings accepted d) _ c3);
      pays = λ floor e.
          clean_pay p accepted kind d floor
            (subst (λ (o : Option ℕ). IsClean (pay_findings p accepted kind d o)) e c4);
    }

-- A job that evaluate calls a match is open, and its evidence is complete, of the current target and version, not a
-- day old, and of a US role; where the requirements name an authorization other than unrestricted its policy is
-- `allowed`, where they need work authorization there is no restriction, where they name locations the role's is one
-- of them, and where they name a floor the pay does not conflict and its largest applicable amount reaches the floor.
pub matches_promise :
    (location_key : Text → Text) (version : Text) (p : Requirements) (facts : Option Facts)
    (kind : JobKind) (status : Option Text) (verified_at : Option ℕ) (now : ℕ)
    (closed target_current : Bool) (rs : List FilingRecord)
    → (evaluate location_key version
        (some p)
        facts
        kind
        status
        verified_at
        now
        closed
        target_current
        rs).screening_bucket
      ≡ ScreeningBucket.matches
    → (closed ≡ false)
      × ((facts_of facts).us_role ≡ true)
      × (is_unfit version status (facts_of facts) verified_at target_current now ≡ false)
      × Promises location_key p (facts_of facts) kind
unfolding evaluate evaluate_configured
matches_promise location_key version p facts kind status verified_at now closed target_current rs
      h =
    let d = facts_of facts in
    let clean : (verdict_of (findings location_key p d kind rs)).screening_bucket
        ≡ ScreeningBucket.matches =
      ground arith in
    (
      ground arith,
      ground arith,
      ground arith,
      clean-Promises location_key p d kind rs
          (verdict-IsClean (findings location_key p d kind rs) clean),
    )
