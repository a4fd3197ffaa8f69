-- ===== src/Evidence/Screening/Findings.antt =====
-- app/evidence/screening.py recent_h1b_summary, and what evaluate finds of restrictions, policies and sponsorship.
use job_ping.Base.{
  ℕ, ◌+◌, max, Bool, not, ◌&&◌, ◌||◌, Option, none, some, List, [], ◌∷◌, ◌++◌, keep, Text, codes,
  is_empty, leb, if◌then◌else◌, ◌==◌, nat_eq, any, list_eq, option_eq,
}
use job_ping.Evidence.Screening.Facts.{
  FilingRecord, is_filing, Authorization, Facts, needs_work_auth, Requirements, stated_policy,
  authorization_key,
}

unfoldable pub sum_counts : List FilingRecord → ℕ
sum_counts [] = 0
sum_counts (r ∷ rs) = r.filings + sum_counts rs

unfoldable pub latest_year : List FilingRecord → ℕ
latest_year [] = 0
latest_year (r ∷ rs) = max r.year (latest_year rs)

abbrev pub min_active_year : ℕ
min_active_year = 2023

-- The number of filings and the latest year, where one filing is recent.
unfoldable pub recent_h1b_summary : List FilingRecord → Option (ℕ × ℕ)
unfolding is_filing sum_counts latest_year
recent_h1b_summary rs =
    let valid = keep is_filing rs in
    if any (λ r. leb min_active_year r.year) valid
    then some (sum_counts valid, latest_year valid)
    else none

pub data Reason : Type 0 where
  applications_closed : Reason
  configure_requirements : Reason
  us_not_established : Reason
  not_checked : Reason
  unverified_pages : Reason
  evidence_too_old : Reason
  requires_citizenship : Reason
  restrictions_need_review : Reason
  policy_is : Authorization → Text → Reason
  sponsorship_allowed : Reason
  sponsorship_denied : Reason
  sponsorship_filed : ℕ → ℕ → Reason
  sponsorship_unclear : Text → Reason
  confirm_location : Reason
  pay_unclear : Reason
  pay_reaches : Reason
  pay_starts_below : Reason
  pay_below : Reason

-- The three lists that evaluate fills.
pub record Findings : Type 0 where
  pub fails : List Reason
  pub reviews : List Reason
  pub passes : List Reason

unfoldable pub nothing_found : Findings
nothing_found = record { fails = []; reviews = []; passes = [] }

unfoldable pub failing : Reason → Findings
failing r = record { fails = r ∷ []; reviews = []; passes = [] }

unfoldable pub reviewing : Reason → Findings
reviewing r = record { fails = []; reviews = r ∷ []; passes = [] }

unfoldable pub passing : Reason → Findings
passing r = record { fails = []; reviews = []; passes = r ∷ [] }

infixr 30 ◌<+>◌
unfoldable pub ◌<+>◌ : Findings → Findings → Findings
x <+> y = record {
  fails = x.fails ++ y.fails;
  reviews = x.reviews ++ y.reviews;
  passes = x.passes ++ y.passes;
}

-- `restrictions.values()`
unfoldable pub restriction_values : Facts → List Text
restriction_values d =
    elim d.citizenship_required [ none ↦ [] | some v ↦ v ∷ [] ]
    ++ elim d.permanent_authorization_required [ none ↦ [] | some v ↦ v ∷ [] ]

unfoldable pub restriction_findings : Requirements → Facts → Findings
unfolding needs_work_auth restriction_values ◌<+>◌ failing reviewing nothing_found
restriction_findings p d =
    if needs_work_auth p
    then (if any (λ v. v == codes "required") (restriction_values d)
        then failing requires_citizenship
        else nothing_found)
      <+> (if any (λ v. not (v == codes "required")) (restriction_values d)
          then reviewing restrictions_need_review
          else nothing_found)
    else nothing_found

unfoldable pub policy_findings : Option Authorization → Facts → Findings
unfolding stated_policy authorization_key passing failing reviewing nothing_found
policy_findings none d = nothing_found
policy_findings (some a) d =
    let value = stated_policy (authorization_key a) d.policies in
    if value == codes "allowed"
    then passing (policy_is a value)
    else if value == codes "denied"
    then failing (policy_is a value)
    else reviewing (policy_is a value)

unfoldable pub sponsorship_unstated : Text → Text → Findings
unfolding reviewing
sponsorship_unstated future spons =
    reviewing (sponsorship_unclear (if future == codes "unknown" then spons else future))

unfoldable pub filed_or_unstated : Text → Text → Bool → Option (ℕ × ℕ) → Findings
unfolding sponsorship_unstated passing
filed_or_unstated future spons restricted none = sponsorship_unstated future spons
filed_or_unstated future spons restricted (some (total, latest)) =
    if future == codes "unknown" && spons == codes "unknown" && not restricted
    then passing (sponsorship_filed total latest)
    else sponsorship_unstated future spons

unfoldable pub sponsorship_of : Text → Text → Bool → Option (ℕ × ℕ) → Findings
unfolding passing failing filed_or_unstated
sponsorship_of future spons restricted h1b =
    if future == codes "allowed"
      || future == codes "unknown" && spons == codes "allowed" && not restricted
    then passing sponsorship_allowed
    else if future == codes "denied" || future == codes "unknown" && spons == codes "denied"
    then failing sponsorship_denied
    else filed_or_unstated future spons restricted h1b

-- What evaluate finds where future sponsorship is required.
unfoldable pub sponsorship_stated : Facts → List FilingRecord → Findings
sponsorship_stated d records =
    sponsorship_of (stated_policy (codes "future_sponsorship") d.policies)
      (stated_policy (codes "sponsorship") d.policies) (not (is_empty (restriction_values d)))
      (recent_h1b_summary records)

unfoldable pub sponsorship_findings : Requirements → Facts → List FilingRecord → Findings
sponsorship_findings p d records =
    if p.future_sponsorship then sponsorship_stated d records else nothing_found
