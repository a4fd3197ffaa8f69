-- ===== src/Evidence/Screening/Buckets.antt =====
-- That app/evidence/screening.py bucket_expression gives the bucket that evaluate gives.
use job_ping.Base.{
  ℕ, ◌≡◌, false, not, ◌&&◌, Option, none, some, [], arith, Text, elem, nat_eq, list_eq, Bool,
  if◌then◌else◌, true,
}
use job_ping.Evidence.Screening.BucketExpression.{
  bucket_expression, conditions, screening, case_of, is_current_target,
}
use job_ping.Evidence.Screening.Facts.{Requirements, Facts, JobKind, facts_of}
use job_ping.Evidence.Screening.PayRows.{IsPriced}
use job_ping.Evidence.Screening.ThreeValued.{Tallies}
use job_ping.Evidence.Screening.Equivalence.{conditions-Tallies}
use job_ping.Evidence.Screening.Sql.{
  is_fresh3, JobRow, holds, CheckRow, and_all, and3, equals3, is_newer3,
}
use job_ping.Evidence.Screening.Evaluate.{
  verdict_of, evaluate, evaluate_configured, accepted_keys, ScreeningBucket, is_unfit, findings,
  is_day_old,
}
use job_ping.Evidence.Screening.Findings.{Findings}
use job_ping.Evidence.Screening.Conditions.{Conditions}

-- The evidence is fresh for the query exactly where evaluate does not send it to review.
is_fresh3_lem :
    (version : Text) (now : ℕ) (job : JobRow) (row : CheckRow)
    → holds (is_fresh3 version now job row) ≡ (
        (facts_of row.projection).us_role
        && not (
            is_unfit version row.status
              (facts_of row.projection)
              row.verified_at
              (is_current_target job row)
              now))
unfolding is_fresh3 holds and_all facts_of and3 equals3 is_newer3 is_unfit is_day_old
    is_current_target
is_fresh3_lem version now job row = ground arith

case_lem :
    (c : Option Bool) (b : Bool) (f : Findings) (k : Conditions)
    → holds c ≡ b
    → Tallies f k
    → case_of c k ≡ (if b then (verdict_of f).screening_bucket else ScreeningBucket.review)
unfolding case_of verdict_of
case_lem c b f k e t = ground (arith, t.on_failure, t.on_review)

unstated :
    (location_key : Text → Text) (version : Text) (now : ℕ) (job : JobRow) (row : CheckRow)
    → bucket_expression location_key version none now job row
      ≡ (screening location_key version true job row none now).screening_bucket
unfolding bucket_expression screening evaluate
unstated location_key version now job row = ground arith

stated :
    (location_key : Text → Text) (version : Text) (p : Requirements) (now : ℕ) (job : JobRow)
    (row : CheckRow)
    → (let d = facts_of row.projection in
        case_of
          (is_fresh3 version now job row)
          (conditions location_key p d job.job_kind job.immigration_records)
        ≡ (if d.us_role
              && not (is_unfit version row.status d row.verified_at (is_current_target job row) now)
            then (verdict_of
                (findings location_key p d job.job_kind job.immigration_records)).screening_bucket
            else ScreeningBucket.review))
    → bucket_expression location_key version (some p) now job row
      ≡ (screening location_key version true job row (some p) now).screening_bucket
unfolding bucket_expression screening evaluate evaluate_configured
stated location_key version p now job row h = ground arith

-- No accepted location has an empty key, and the items of base pay that apply to the job have an amount.
abbrev pub IsRegular : (Text → Text) → Option Requirements → JobKind → Facts → Type 0
IsRegular location_key none kind d = Unit {0}
IsRegular location_key (some p) kind d =
    (elem [] (accepted_keys location_key p) ≡ false)
    × IsPriced p (accepted_keys location_key p) kind d.compensation

-- The bucket that the filter of a listing computes in SQL is the bucket that the view of the job shows, where the view
-- has the job's company loaded, no accepted location has an empty key and every item of base pay that applies to the
-- job has a maximum or a minimum.
pub bucket_expression_agrees :
    (location_key : Text → Text) (version : Text) (profile : Option Requirements) (now : ℕ)
    (job : JobRow) (row : CheckRow)
    → IsRegular location_key profile job.job_kind (facts_of row.projection)
    → bucket_expression location_key version profile now job row
      ≡ (screening location_key version true job row profile now).screening_bucket
bucket_expression_agrees location_key version none now job row h =
    unstated location_key version now job row
bucket_expression_agrees location_key version (some p) now job row h =
    let d = facts_of row.projection in
    stated location_key version p now job row (
      case_lem (is_fresh3 version now job row)
        (d.us_role
          && not (is_unfit version row.status d row.verified_at (is_current_target job row) now))
        (findings location_key p d job.job_kind job.immigration_records)
        (conditions location_key p d job.job_kind job.immigration_records)
        (is_fresh3_lem version now job row)
        (conditions-Tallies location_key p d job.job_kind job.immigration_records h.0 h.1))
