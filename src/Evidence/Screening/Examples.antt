-- ===== src/Evidence/Screening/Examples.antt =====
-- Runs of the screening.
use job_ping.Evidence.Screening.Findings.{
  reviewing, passing, restriction_values, restriction_findings, policy_findings,
  sponsorship_unstated, filed_or_unstated, sponsorship_of, sponsorship_stated, sponsorship_findings,
}
use job_ping.Evidence.Screening.Evaluate.{
  is_accepted_key, location_findings, applies, amounts_of, maximum_of, pay_judged, pay_findings,
  findings, verdict_of, is_day_old, unfit_reason, evaluate_configured,
}
use job_ping.Evidence.Screening.Sql.{holds, or_all, and_all, is_newer3, is_fresh3}
use job_ping.Evidence.Screening.Conditions.{
  no_conditions, is_not_null, restriction_doubt, restriction_conditions, policy_conditions,
  has_recent_h1b, future_failed, future_satisfied, is_restricted, sponsorship_query,
  sponsorship_conditions, or_empty, location_conditions, in3, pay_constraints, reaches3,
  is_comparable, pay_conditions,
}
use job_ping.Evidence.Screening.BucketExpression.{conditions, case_of, is_current_target}
use job_ping.Evidence.Screening.Matches.{Promises, matches_promise}
use job_ping.Evidence.Screening.Findings.{
  ◌<+>◌, sum_counts, latest_year, recent_h1b_summary, nothing_found, failing,
}
use job_ping.Evidence.Screening.Conditions.{◌<&>◌}
use job_ping.Base.{
  ℕ, ◌≡◌, true, false, Option, none, some, [], ◌∷◌, Text, codes, elem, nat_eq, list_eq, refl,
}
use job_ping.Evidence.Screening.Facts.{
  Requirements, Pay, Facts, Authorization, JobKind, facts_of, Authorization-discrete,
  JobKind-discrete, is_configured, no_facts, stated_policy, authorization_key, needed,
  needs_work_auth, is_filing, floor_for, period_of,
}
use job_ping.Evidence.Screening.Sql.{JobRow, CheckRow, or3, and3, not3, equals3}
use job_ping.Evidence.Screening.BucketExpression.{bucket_expression, screening}
use job_ping.Evidence.Screening.Evaluate.{
  accepted_keys, evaluate, ScreeningBucket, amount_of, is_unfit,
}
use job_ping.Evidence.Screening.Buckets.{bucket_expression_agrees, IsRegular}

abbrev student : Requirements
student = record {
  authorization = some Authorization.opt;
  future_sponsorship = false;
  locations = codes "boston" ∷ [];
  internship_hourly = some 3000;
  new_grad_annual = none;
  currency = codes "USD";
}

abbrev hourly : Option ℕ → Option ℕ → Pay
hourly low high = record {
  component = codes "base";
  interval = codes "hour";
  pay_currency = codes "USD";
  us = true;
  location = some (codes "boston");
  minimum = low;
  maximum = high;
}

abbrev good_facts : Facts
good_facts = record {
  extraction_version = some (codes "v");
  us_role = true;
  policies = (codes "opt", codes "allowed") ∷ [];
  citizenship_required = none;
  permanent_authorization_required = none;
  location = some (codes "boston");
  compensation = hourly (some 2500) (some 3500) ∷ [];
  pay_conflicting = false;
}

abbrev listed_job : JobRow
listed_job = record {
  is_closed = false;
  job_kind = JobKind.internship;
  apply_url = codes "u";
  place = codes "Boston";
  title = codes "t";
  immigration_records = [];
}

abbrev checked : Facts → CheckRow
checked d = record {
  status = some (codes "complete");
  verified_at = some 999000;
  target = record {
    url = some (codes "u");
    place = some (codes "Boston");
    title = some (codes "t");
  };
  projection = some d;
}

abbrev same_key : Text → Text
same_key t = t

is_regular :
    IsRegular same_key (some student) JobKind.internship (facts_of (checked good_facts).projection)
unfolding elem accepted_keys facts_of amount_of
is_regular = (refl, (λ h. refl, tt))

bucket_expression_agrees_example :
    bucket_expression same_key (codes "v") (some student) 1000000 listed_job (checked good_facts)
    ≡ (screening same_key
        (codes "v")
        true
        listed_job
        (checked good_facts)
        (some student)
        1000000).screening_bucket
bucket_expression_agrees_example =
    bucket_expression_agrees same_key (codes "v") (some student) 1000000 listed_job
      (checked good_facts) is_regular

is_a_match :
    (evaluate same_key
      (codes "v")
      (some student)
      (some good_facts)
      JobKind.internship
      (some (codes "complete"))
      (some 999000)
      1000000
      false
      true
      []).screening_bucket
    ≡ ScreeningBucket.matches
unfolding Authorization-discrete JobKind-discrete is_configured no_facts facts_of stated_policy
    authorization_key needed needs_work_auth is_filing floor_for period_of sum_counts latest_year
    recent_h1b_summary nothing_found failing reviewing passing ◌<+>◌ restriction_values
    restriction_findings policy_findings sponsorship_unstated filed_or_unstated sponsorship_of
    sponsorship_stated sponsorship_findings accepted_keys is_accepted_key location_findings applies
    amount_of amounts_of maximum_of pay_judged pay_findings findings verdict_of is_day_old is_unfit
    unfit_reason evaluate_configured evaluate elem
is_a_match = refl

matches_promise_example :
    (false ≡ false)
    × ((facts_of (some good_facts)).us_role ≡ true)
    × (is_unfit
          (codes "v")
          (some (codes "complete"))
          (facts_of (some good_facts))
          (some 999000)
          true
          1000000
        ≡ false)
    × Promises same_key student (facts_of (some good_facts)) JobKind.internship
matches_promise_example =
    matches_promise same_key (codes "v") student (some good_facts) JobKind.internship
      (some (codes "complete")) (some 999000) 1000000 false true [] is_a_match

-- Pay that applies and has no amount beside one below the floor: the view says review and the filter excludes.
abbrev unpriced_facts : Facts
unpriced_facts = record good_facts {
  compensation = hourly (some 2500) (some 2600) ∷ hourly none none ∷ [];
}

view_reviews :
    (screening same_key
      (codes "v")
      true
      listed_job
      (checked unpriced_facts)
      (some student)
      1000000).screening_bucket
    ≡ ScreeningBucket.review
unfolding Authorization-discrete JobKind-discrete is_configured no_facts facts_of stated_policy
    authorization_key needed needs_work_auth is_filing floor_for period_of sum_counts latest_year
    recent_h1b_summary nothing_found failing reviewing passing ◌<+>◌ restriction_values
    restriction_findings policy_findings sponsorship_unstated filed_or_unstated sponsorship_of
    sponsorship_stated sponsorship_findings accepted_keys is_accepted_key location_findings applies
    amount_of amounts_of maximum_of pay_judged pay_findings findings verdict_of is_day_old is_unfit
    unfit_reason evaluate_configured evaluate elem screening is_current_target
view_reviews = refl

filter_excludes :
    bucket_expression same_key
      (codes "v")
      (some student)
      1000000
      listed_job
      (checked unpriced_facts)
    ≡ ScreeningBucket.excluded
unfolding Authorization-discrete JobKind-discrete is_configured no_facts facts_of stated_policy
    authorization_key needed needs_work_auth is_filing floor_for period_of accepted_keys amount_of
    or3 and3 not3 equals3 holds or_all and_all is_newer3 is_fresh3 no_conditions ◌<&>◌ is_not_null
    restriction_doubt restriction_conditions policy_conditions has_recent_h1b future_failed
    future_satisfied is_restricted sponsorship_query sponsorship_conditions or_empty
    location_conditions in3 pay_constraints reaches3 is_comparable pay_conditions conditions case_of
    bucket_expression elem
filter_excludes = refl
