-- ===== src/Evidence/Screening/BucketExpression.antt =====
-- app/evidence/screening.py bucket_expression, and app/evidence/api.py screening, which calls evaluate.
use job_ping.Base.{
  list_eq, option_eq, nat_eq, ℕ, Bool, not, ◌&&◌, Option, none, some, List, Text, if◌then◌else◌,
  ◌==◌, nat_eq, option_eq, [],
}
use job_ping.Evidence.Screening.Facts.{
  is_configured, facts_of, Requirements, needed, Facts, JobKind, FilingRecord,
}
use job_ping.Evidence.Screening.Conditions.{
  Conditions, restriction_conditions, ◌<&>◌, policy_conditions, sponsorship_conditions,
  location_conditions, pay_conditions,
}
use job_ping.Evidence.Screening.Sql.{holds, JobRow, or_all, CheckRow, is_fresh3}
use job_ping.Evidence.Screening.Evaluate.{
  accepted_keys, ScreeningBucket, ScreeningVerdict, evaluate,
}

unfoldable pub conditions :
    (Text → Text) → Requirements → Facts → JobKind → List FilingRecord → Conditions
conditions location_key p d kind records =
    let accepted = accepted_keys location_key p in
    restriction_conditions p d
    <&> policy_conditions (needed p.authorization) d
    <&> sponsorship_conditions p d records
    <&> location_conditions accepted d
    <&> pay_conditions p accepted kind d JobKind.internship p.internship_hourly
    <&> pay_conditions p accepted kind d JobKind.new_grad p.new_grad_annual

-- The CASE over a row that is not closed.
unfoldable pub case_of : Option Bool → Conditions → ScreeningBucket
unfolding holds or_all
case_of is_fresh c =
    if not (holds is_fresh)
    then ScreeningBucket.review
    else if holds (or_all c.failures)
    then ScreeningBucket.excluded
    else if holds (or_all c.doubts)
    then ScreeningBucket.review
    else ScreeningBucket.matches

unfoldable pub bucket_expression :
    (Text → Text) → Text → Option Requirements → ℕ → JobRow → CheckRow → ScreeningBucket
bucket_expression location_key version profile now job row =
    if job.is_closed then ScreeningBucket.excluded else elim profile [
      | none ↦ ScreeningBucket.review
      | some p ↦
          if is_configured p
          then case_of (is_fresh3 version now job row) (
              conditions location_key p (facts_of row.projection) job.job_kind
                job.immigration_records)
          else ScreeningBucket.review
    ]

-- `check.target["url"] == job.apply_url and ...`
unfoldable pub is_current_target : JobRow → CheckRow → Bool
is_current_target job row =
    row.target.url == some job.apply_url
    && row.target.place == some job.place
    && row.target.title == some job.title

-- The verdict of a job. Its company's records are at hand where the company is loaded with the job, else none are.
unfoldable pub screening :
    (Text → Text) → Text → Bool → JobRow → CheckRow → Option Requirements → ℕ → ScreeningVerdict
screening location_key version is_loaded job row profile now =
    evaluate location_key version profile row.projection job.job_kind row.status row.verified_at now
      job.is_closed (is_current_target job row) (if is_loaded then job.immigration_records else [])
