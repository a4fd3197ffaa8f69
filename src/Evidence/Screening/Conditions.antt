-- ===== src/Evidence/Screening/Conditions.antt =====
-- app/evidence/screening.py bucket_expression: the failures and the doubts of each requirement.
use job_ping.Base.{
  ℕ, Bool, true, false, not, ◌&&◌, ◌||◌, Option, none, some, List, [], ◌∷◌, ◌++◌, keep, Text, codes,
  is_empty, leb, if◌then◌else◌, ◌==◌, elem, nat_eq, list_eq, any, option_eq,
}
use job_ping.Evidence.Screening.Facts.{
  JobKind, Facts, needs_work_auth, is_filing, period_of, FilingRecord, Requirements, stated_policy,
  authorization_key, Pay, Authorization, job_kind_eq,
}
use job_ping.Evidence.Screening.Sql.{and3, or3, and_all, holds, not3, equals3, or_all}
use job_ping.Evidence.Screening.Evaluate.{amount_of}

-- What a requirement adds to the failures and to the reviews.
pub record Conditions : Type 0 where
  pub failures : List (Option Bool)
  pub doubts : List (Option Bool)

unfoldable pub no_conditions : Conditions
no_conditions = record { failures = []; doubts = [] }

infixr 30 ◌<&>◌
unfoldable pub ◌<&>◌ : Conditions → Conditions → Conditions
x <&> y = record { failures = x.failures ++ y.failures; doubts = x.doubts ++ y.doubts }

unfoldable pub is_not_null : Option Text → Option Bool
is_not_null none = some false
is_not_null (some t) = some true

unfoldable pub restriction_doubt : Option Text → Option Bool
unfolding and3 is_not_null not3 equals3
restriction_doubt r = and3 (is_not_null r) (not3 (equals3 r (codes "required")))

unfoldable pub restriction_conditions : Requirements → Facts → Conditions
unfolding needs_work_auth or3 equals3 restriction_doubt no_conditions
restriction_conditions p d =
    if needs_work_auth p
    then record {
      failures =
          or3 (equals3 d.citizenship_required (codes "required"))
            (equals3 d.permanent_authorization_required (codes "required"))
          ∷ [];
      doubts =
          restriction_doubt d.citizenship_required
          ∷ restriction_doubt d.permanent_authorization_required
          ∷ [];
    }
    else no_conditions

unfoldable pub policy_conditions : Option Authorization → Facts → Conditions
unfolding stated_policy authorization_key no_conditions
policy_conditions none d = no_conditions
policy_conditions (some a) d =
    let value = stated_policy (authorization_key a) d.policies in
    record {
      failures = some (value == codes "denied") ∷ [];
      doubts = some (not (value == codes "allowed" || value == codes "denied")) ∷ [];
    }

-- _company_has_recent_h1b
unfoldable pub has_recent_h1b : List FilingRecord → Bool
unfolding is_filing
has_recent_h1b rs = any (λ r. is_filing r && leb 2023 r.year) rs

unfoldable pub future_failed : Text → Text → Option Bool
unfolding or3 and3
future_failed future spons =
    or3 (some (future == codes "denied"))
      (and3 (some (future == codes "unknown")) (some (spons == codes "denied")))

unfoldable pub future_satisfied : Text → Text → Option Bool → Bool → Option Bool
unfolding or3 and_all and3 not3
future_satisfied future spons restricted h1b = or3 (some (future == codes "allowed")) (
    and_all (
      some (future == codes "unknown")
      ∷ not3 restricted
      ∷ or3 (some (spons == codes "allowed")) (and3 (some (spons == codes "unknown")) (some h1b))
      ∷ []))

-- `has_restriction`
unfoldable pub is_restricted : Facts → Option Bool
is_restricted d =
    or3 (is_not_null d.citizenship_required) (is_not_null d.permanent_authorization_required)

unfoldable pub sponsorship_query : Text → Text → Option Bool → Bool → Conditions
sponsorship_query future spons restricted h1b = record {
  failures = future_failed future spons ∷ [];
  doubts =
      and3 (not3 (future_failed future spons)) (not3 (future_satisfied future spons restricted h1b))
      ∷ [];
}

unfoldable pub sponsorship_conditions : Requirements → Facts → List FilingRecord → Conditions
sponsorship_conditions p d records =
    if p.future_sponsorship
    then sponsorship_query (stated_policy (codes "future_sponsorship") d.policies)
        (stated_policy (codes "sponsorship") d.policies) (is_restricted d) (has_recent_h1b records)
    else no_conditions

unfoldable pub or_empty : Option Text → Text
or_empty none = []
or_empty (some t) = t

unfoldable pub location_conditions : List Text → Facts → Conditions
unfolding or_empty no_conditions
location_conditions accepted d =
    if is_empty accepted
    then no_conditions
    else record { failures = []; doubts = some (not (elem (or_empty d.location) accepted)) ∷ [] }

-- `column in list`
unfoldable pub in3 : Option Text → List Text → Option Bool
in3 none keys = none
in3 (some t) keys = some (elem t keys)

unfoldable pub pay_constraints : Requirements → List Text → JobKind → Pay → Option Bool
unfolding and_all in3 period_of
pay_constraints p accepted kind item = and_all (
    some (item.component == codes "base")
    ∷ some (item.interval == period_of kind)
    ∷ some (item.pay_currency == p.currency)
    ∷ some item.us
    ∷ (if is_empty accepted then some true else in3 item.location accepted)
    ∷ [])

-- `amount >= floor`
unfoldable pub reaches3 : ℕ → Option ℕ → Option Bool
reaches3 floor none = none
reaches3 floor (some n) = some (leb floor n)

-- A comparable row: the constraints hold and there is an amount.
unfoldable pub is_comparable : Requirements → List Text → JobKind → Pay → Bool
unfolding holds pay_constraints amount_of
is_comparable p accepted kind item =
    holds (pay_constraints p accepted kind item) && not (amount_of item == none)

unfoldable pub pay_conditions :
    Requirements → List Text → JobKind → Facts → JobKind → Option ℕ → Conditions
unfolding is_comparable holds reaches3 amount_of and_all or3 and3 not3 no_conditions
pay_conditions p accepted job_kind d kind none = no_conditions
pay_conditions p accepted job_kind d kind (some floor) =
    let rows = keep (is_comparable p accepted kind) d.compensation in
    let comparable = some (any (λ (item : Pay). true) rows) in
    let meets = some (any (λ item. holds (reaches3 floor (amount_of item))) rows) in
    let unbounded = some (any (λ item. item.maximum == none) rows) in
    let conflict = some d.pay_conflicting in
    record {
      failures =
          and_all (
            some (job_kind == kind) ∷ comparable ∷ not3 meets ∷ not3 unbounded ∷ not3 conflict ∷ [])
          ∷ [];
      doubts =
          and3 (some (job_kind == kind))
            (or_all (conflict ∷ not3 comparable ∷ and3 (not3 meets) unbounded ∷ []))
          ∷ [];
    }
