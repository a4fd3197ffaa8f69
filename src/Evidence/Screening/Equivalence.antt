-- ===== src/Evidence/Screening/Equivalence.antt =====
-- That app/evidence/screening.py bucket_expression gives the bucket that evaluate gives.
use job_ping.Base.{
  refl, Option, none, some, arith, ℕ, ◌≡◌, ◌∙◌, ◌⊎◌, inl, inr, Bool, true, false, not, ◌||◌, List,
  [], ◌∷◌, keep, Text, codes, list_beq_iff, leb, if◌then◌else◌, Bool-cases, ◌==◌, elem, nat_eq,
  list_eq, any, is_empty,
}
use job_ping.Evidence.Screening.Facts.{
  Authorization, Facts, Requirements, stated_policy, authorization_key, FilingRecord, is_filing,
  floor_for, JobKind-discrete, JobKind, needed,
}
use job_ping.Evidence.Screening.ThreeValued.{Tallies, or_all-append, Tallies-<+>}
use job_ping.Evidence.Screening.PayRows.{IsPriced, pay-Tallies, other_kind}
use job_ping.Evidence.Screening.BucketExpression.{conditions}
use job_ping.Evidence.Screening.Findings.{
  restriction_findings, passing, policy_findings, recent_h1b_summary, sponsorship_of,
  sponsorship_stated, sponsorship_findings, failing, min_active_year, sum_counts, filed_or_unstated,
  nothing_found, reviewing, latest_year, sponsorship_unstated, Findings, restriction_values,
  policy_is,
}
use job_ping.Evidence.Screening.Conditions.{
  has_recent_h1b, ◌<&>◌, restriction_conditions, policy_conditions, location_conditions,
  pay_conditions, is_not_null, sponsorship_conditions, or_empty, no_conditions, Conditions,
  is_restricted, sponsorship_query, future_failed, restriction_doubt, future_satisfied,
}
use job_ping.Evidence.Screening.Evaluate.{
  location_findings, pay_findings, findings, accepted_keys, is_accepted_key,
}
use job_ping.Evidence.Screening.Sql.{or3, holds, or_all, and3, and_all, not3, equals3}

restriction-Tallies :
    (p : Requirements) (d : Facts) → Tallies (restriction_findings p d) (restriction_conditions p d)
unfolding restriction_findings restriction_conditions holds or_all or3 and3 not3 equals3
    restriction_doubt is_not_null
restriction-Tallies p d = record { on_failure = ground arith; on_review = ground arith }

only_one : (v s t : Text) → (s == t) ≡ false → (v == s) ≡ true → (v == t) ≡ false
only_one v s t n h = rw ((list_beq_iff v s).0 h) n

policy_cases :
    (a : Authorization) (v : Text)
    → Tallies
        (if v == codes "allowed"
          then passing (policy_is a v)
          else if v == codes "denied"
          then failing (policy_is a v)
          else reviewing (policy_is a v))
        (record {
          failures = some (v == codes "denied") ∷ [];
          doubts = some (not (v == codes "allowed" || v == codes "denied")) ∷ [];
        })
unfolding passing failing reviewing holds or_all or3
policy_cases a v =
    let n = only_one v (codes "allowed") (codes "denied") refl in
    record { on_failure = ground arith; on_review = ground arith }

policy-Tallies :
    (a : Option Authorization) (d : Facts) → Tallies (policy_findings a d) (policy_conditions a d)
unfolding policy_findings policy_conditions holds or_all
policy-Tallies none d = record { on_failure = refl; on_review = refl }
policy-Tallies (some a) d = policy_cases a (stated_policy (authorization_key a) d.policies)

-- A filing is recent in the summary exactly where the query finds one.
recent_iff :
    (rs : List FilingRecord)
    → any (λ (r : FilingRecord). leb min_active_year r.year) (keep is_filing rs) ≡ has_recent_h1b rs
unfolding has_recent_h1b
recent_iff [] = refl
recent_iff (r ∷ rs) = ground (arith, recent_iff rs)

summary-cases :
    (rs : List FilingRecord)
    → ((recent_h1b_summary rs ≡ none) × (has_recent_h1b rs ≡ false))
      ⊎ ((total : ℕ) × (latest : ℕ) × (recent_h1b_summary rs ≡ some (total, latest))
          × (has_recent_h1b rs ≡ true))
unfolding recent_h1b_summary
summary-cases rs = elim (Bool-cases (has_recent_h1b rs)) [
  | inl e ↦ inr (
    sum_counts (keep is_filing rs),
    latest_year (keep is_filing rs),
    rw (recent_iff rs ∙ e) refl,
    e,
  )
  | inr e ↦ inl (rw (recent_iff rs ∙ e) refl, e)
]

sponsorship_value :
    (future spons : Text) (restricted : Bool) (h1b : Option (ℕ × ℕ)) (recent : Bool)
    → ((h1b ≡ none) × (recent ≡ false))
      ⊎ ((t : ℕ) × (l : ℕ) × (h1b ≡ some (t, l)) × (recent ≡ true))
    → Tallies
        (sponsorship_of future spons restricted h1b)
        (sponsorship_query future spons (some restricted) recent)
unfolding sponsorship_of filed_or_unstated sponsorship_unstated passing failing reviewing holds
    or_all and_all or3 and3 not3 future_failed future_satisfied sponsorship_query
sponsorship_value future spons restricted h1b recent k =
    let a = only_one future (codes "allowed") (codes "denied") refl in
    let b = only_one future (codes "allowed") (codes "unknown") refl in
    let c = only_one spons (codes "allowed") (codes "denied") refl in
    let d = only_one spons (codes "allowed") (codes "unknown") refl in
    let e = only_one spons (codes "denied") (codes "unknown") refl in
    let f = only_one future (codes "denied") (codes "unknown") refl in
    record { on_failure = ground arith; on_review = ground arith }

location-Tallies :
    (accepted : List Text) (d : Facts)
    → elem [] accepted ≡ false
    → Tallies (location_findings accepted d) (location_conditions accepted d)
unfolding location_findings location_conditions or_empty is_accepted_key reviewing holds or_all or3
location-Tallies accepted d h = record { on_failure = ground arith; on_review = ground arith }

-- What finds nothing changes nothing, on either side.
with_nothing_right :
    (f : Findings) (c n : Conditions) → Tallies f c → Tallies nothing_found n → Tallies f (c <&> n)
unfolding ◌<&>◌ nothing_found
with_nothing_right f c n x y = record {
  on_failure = ground (arith, x.on_failure, y.on_failure, or_all-append c.failures n.failures);
  on_review = ground (arith, x.on_review, y.on_review, or_all-append c.doubts n.doubts);
}

with_nothing_left :
    (f : Findings) (c n : Conditions) → Tallies f c → Tallies nothing_found n → Tallies f (n <&> c)
unfolding ◌<&>◌ nothing_found
with_nothing_left f c n x y = record {
  on_failure = ground (arith, x.on_failure, y.on_failure, or_all-append n.failures c.failures);
  on_review = ground (arith, x.on_review, y.on_review, or_all-append n.doubts c.doubts);
}

all_pay-Tallies :
    (p : Requirements) (accepted : List Text) (kind : JobKind) (d : Facts)
    → IsPriced p accepted kind d.compensation
    → Tallies (pay_findings p accepted kind d (floor_for p kind)) (
        pay_conditions p accepted kind d JobKind.internship p.internship_hourly
        <&> pay_conditions p accepted kind d JobKind.new_grad p.new_grad_annual)
unfolding floor_for JobKind-discrete
all_pay-Tallies p accepted JobKind.internship d h =
    with_nothing_right (pay_findings p accepted JobKind.internship d p.internship_hourly)
      (pay_conditions p accepted JobKind.internship d JobKind.internship p.internship_hourly)
      (pay_conditions p accepted JobKind.internship d JobKind.new_grad p.new_grad_annual)
      (pay-Tallies p accepted JobKind.internship d p.internship_hourly h)
      (other_kind p accepted JobKind.internship JobKind.new_grad d p.new_grad_annual refl)
all_pay-Tallies p accepted JobKind.new_grad d h =
    with_nothing_left (pay_findings p accepted JobKind.new_grad d p.new_grad_annual)
      (pay_conditions p accepted JobKind.new_grad d JobKind.new_grad p.new_grad_annual)
      (pay_conditions p accepted JobKind.new_grad d JobKind.internship p.internship_hourly)
      (pay-Tallies p accepted JobKind.new_grad d p.new_grad_annual h)
      (other_kind p accepted JobKind.new_grad JobKind.internship d p.internship_hourly refl)

restricted_lem : (d : Facts) → is_restricted d ≡ some (not (is_empty (restriction_values d)))
unfolding or3 is_not_null restriction_values is_restricted
restricted_lem d = ground arith

sponsorship_if :
    (wanted : Bool) (d : Facts) (rs : List FilingRecord)
    → Tallies (if wanted then sponsorship_stated d rs else nothing_found) (
        if wanted
        then sponsorship_query
            (stated_policy (codes "future_sponsorship") d.policies)
            (stated_policy (codes "sponsorship") d.policies)
            (is_restricted d)
            (has_recent_h1b rs)
        else no_conditions)
unfolding sponsorship_stated nothing_found no_conditions holds or_all
sponsorship_if true d rs = rw (restricted_lem d) (
    sponsorship_value (stated_policy (codes "future_sponsorship") d.policies)
      (stated_policy (codes "sponsorship") d.policies) (not (is_empty (restriction_values d)))
      (recent_h1b_summary rs) (has_recent_h1b rs) (summary-cases rs))
sponsorship_if false d rs = record { on_failure = refl; on_review = refl }

sponsorship-Tallies :
    (p : Requirements) (d : Facts) (rs : List FilingRecord)
    → Tallies (sponsorship_findings p d rs) (sponsorship_conditions p d rs)
unfolding sponsorship_findings sponsorship_conditions
sponsorship-Tallies p d rs = sponsorship_if p.future_sponsorship d rs

pub conditions-Tallies :
    (location_key : Text → Text) (p : Requirements) (d : Facts) (kind : JobKind)
    (rs : List FilingRecord)
    → elem [] (accepted_keys location_key p) ≡ false
    → IsPriced p (accepted_keys location_key p) kind d.compensation
    → Tallies (findings location_key p d kind rs) (conditions location_key p d kind rs)
unfolding findings conditions
conditions-Tallies location_key p d kind rs h k =
    let accepted = accepted_keys location_key p in
    let pay = all_pay-Tallies p accepted kind d k in
    let place = Tallies-<+> _ _ _ _ (location-Tallies accepted d h) pay in
    let spons = Tallies-<+> _ _ _ _ (sponsorship-Tallies p d rs) place in
    let auth = Tallies-<+> _ _ _ _ (policy-Tallies (needed p.authorization) d) spons in
    Tallies-<+> _ _ _ _ (restriction-Tallies p d) auth
