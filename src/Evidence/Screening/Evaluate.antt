-- ===== src/Evidence/Screening/Evaluate.antt =====
-- app/evidence/screening.py evaluate: what it finds of location and pay, and its verdict.
use job_ping.Base.{
  ℕ, max, Bool, not, ◌&&◌, ◌||◌, Option, none, some, List, [], ◌∷◌, ◌++◌, keep, Text, codes,
  is_empty, leb, if◌then◌else◌, ◌==◌, nat_eq, any, list_eq, option_eq, ◌-◌, false, map, elem,
}
use job_ping.Evidence.Screening.Facts.{
  FilingRecord, Facts, Requirements, period_of, Pay, JobKind, needed, is_configured, floor_for,
  facts_of,
}
use job_ping.Evidence.Screening.Findings.{
  reviewing, passing, nothing_found, Findings, Reason, confirm_location, failing,
  restriction_findings, evidence_too_old, us_not_established, applications_closed, pay_unclear,
  ◌<+>◌, not_checked, configure_requirements, pay_reaches, policy_findings, unverified_pages,
  pay_starts_below, sponsorship_findings, pay_below,
}

-- `{location_key(value) for value in locations}`, where location_key is an argument: it folds case and space.
unfoldable pub accepted_keys : (Text → Text) → Requirements → List Text
accepted_keys location_key p = map location_key p.locations

-- `value in accepted`, where None is in no set of texts.
unfoldable pub is_accepted_key : List Text → Option Text → Bool
is_accepted_key accepted none = false
is_accepted_key accepted (some key) = elem key accepted

unfoldable pub location_findings : List Text → Facts → Findings
unfolding is_accepted_key reviewing nothing_found
location_findings accepted d =
    if not (is_empty accepted) && not (is_accepted_key accepted d.location)
    then reviewing confirm_location
    else nothing_found

-- The items of base pay that apply to the job.
unfoldable pub applies : Requirements → List Text → JobKind → Pay → Bool
unfolding is_accepted_key period_of
applies p accepted kind item =
    item.component == codes "base"
    && item.interval == period_of kind
    && item.pay_currency == p.currency
    && item.us
    && (is_empty accepted || is_accepted_key accepted item.location)

-- The maximum, or the minimum where there is none.
unfoldable pub amount_of : Pay → Option ℕ
amount_of item = elim item.maximum [ none ↦ item.minimum | some m ↦ some m ]

unfoldable pub amounts_of : List Pay → List ℕ
unfolding amount_of
amounts_of [] = []
amounts_of (item ∷ items) =
    elim (amount_of item) [ none ↦ [] | some n ↦ n ∷ [] ] ++ amounts_of items

unfoldable pub maximum_of : List ℕ → ℕ
maximum_of [] = 0
maximum_of (n ∷ ns) = max n (maximum_of ns)

unfoldable pub pay_judged : ℕ → Bool → List Pay → List ℕ → Findings
unfolding maximum_of passing failing reviewing
pay_judged floor conflicting pay amounts =
    if conflicting || is_empty amounts
    then reviewing pay_unclear
    else if leb floor (maximum_of amounts)
    then passing pay_reaches
    else if any (λ item. item.maximum == none) pay
    then reviewing pay_starts_below
    else failing pay_below

unfoldable pub pay_findings : Requirements → List Text → JobKind → Facts → Option ℕ → Findings
unfolding applies amounts_of pay_judged nothing_found
pay_findings p accepted kind d none = nothing_found
pay_findings p accepted kind d (some floor) =
    let pay = keep (applies p accepted kind) d.compensation in
    pay_judged floor d.pay_conflicting pay (amounts_of pay)

-- What evaluate finds of fresh evidence.
unfoldable pub findings :
    (Text → Text) → Requirements → Facts → JobKind → List FilingRecord → Findings
findings location_key p d kind records =
    let accepted = accepted_keys location_key p in
    restriction_findings p d
    <+> policy_findings (needed p.authorization) d
    <+> sponsorship_findings p d records
    <+> location_findings accepted d
    <+> pay_findings p accepted kind d (floor_for p kind)

pub data ScreeningBucket : Type 0 where
  matches : ScreeningBucket
  review : ScreeningBucket
  excluded : ScreeningBucket

pub record ScreeningVerdict : Type 0 where
  pub screening_bucket : ScreeningBucket
  pub reasons : List Reason

-- `"excluded" if fails else "review" if reviews else "matches"`
unfoldable pub verdict_of : Findings → ScreeningVerdict
verdict_of f = record {
  screening_bucket =
      if not (is_empty f.fails)
      then ScreeningBucket.excluded
      else if not (is_empty f.reviews)
      then ScreeningBucket.review
      else ScreeningBucket.matches;
  reasons = f.fails ++ (f.reviews ++ f.passes);
}

-- `verified_at <= now - 24 hours`
unfoldable pub is_day_old : Option ℕ → ℕ → Bool
is_day_old none now = false
is_day_old (some t) now = leb t (now - 86400)

-- The evidence is of this version and of the current target, complete and not a day old.
unfoldable pub is_unfit : Text → Option Text → Facts → Option ℕ → Bool → ℕ → Bool
unfolding is_day_old
is_unfit version status d verified_at target_current now =
    not (status == some (codes "complete"))
    || not (d.extraction_version == some version)
    || verified_at == none
    || not target_current
    || is_day_old verified_at now

unfoldable pub unfit_reason : Option Text → Option ℕ → ℕ → Reason
unfolding is_day_old
unfit_reason status verified_at now =
    if is_day_old verified_at now
    then evidence_too_old
    else if status == none
    then not_checked
    else unverified_pages

unfoldable pub evaluate_configured :
    (Text → Text)
    → Text
    → Requirements
    → Facts
    → JobKind
    → Option Text
    → Option ℕ
    → ℕ
    → Bool
    → List FilingRecord
    → ScreeningVerdict
evaluate_configured location_key version p d kind status verified_at now target_current records =
    if not d.us_role
    then record { screening_bucket = ScreeningBucket.review; reasons = us_not_established ∷ [] }
    else if is_unfit version status d verified_at target_current now
    then record {
      screening_bucket = ScreeningBucket.review;
      reasons = unfit_reason status verified_at now ∷ [];
    }
    else verdict_of (findings location_key p d kind records)

unfoldable pub evaluate :
    (Text → Text)
    → Text
    → Option Requirements
    → Option Facts
    → JobKind
    → Option Text
    → Option ℕ
    → ℕ
    → Bool
    → Bool
    → List FilingRecord
    → ScreeningVerdict
evaluate location_key version profile facts kind status verified_at now closed target_current
      records =
    if closed
    then record { screening_bucket = ScreeningBucket.excluded; reasons = applications_closed ∷ [] }
    else elim profile [
      | none ↦ record {
        screening_bucket = ScreeningBucket.review;
        reasons = configure_requirements ∷ [];
      }
      | some p ↦
          if is_configured p
          then evaluate_configured location_key version p (facts_of facts) kind status verified_at
              now target_current records
          else record {
            screening_bucket = ScreeningBucket.review;
            reasons = configure_requirements ∷ [];
          }
    ]
