-- ===== src/Evidence/Screening/PayRows.antt =====
-- That the pay of app/evidence/screening.py evaluate and of bucket_expression is judged alike, where every item
-- that applies has an amount.
use job_ping.Base.{
  ℕ, ◌≡◌, refl, Bool, true, false, not, ◌&&◌, Option, none, some, List, [], ◌∷◌, arith, keep, All,
  Text, is_empty, leb, ◌==◌, nat_eq, any, option_eq,
}
use job_ping.Evidence.Screening.Facts.{
  Requirements, Pay, JobKind-discrete, JobKind, job_kind_eq, Facts,
}
use job_ping.Evidence.Screening.ThreeValued.{Tallies}
use job_ping.Evidence.Screening.Evaluate.{
  applies, amount_of, amounts_of, pay_judged, pay_findings, maximum_of, is_accepted_key,
}
use job_ping.Evidence.Screening.Conditions.{
  pay_constraints, is_comparable, pay_conditions, reaches3, in3, no_conditions,
}
use job_ping.Evidence.Screening.Sql.{holds, and_all, or_all, and3, or3, not3}
use job_ping.Evidence.Screening.Findings.{passing, failing, reviewing, nothing_found}

-- The items of base pay that apply have a maximum or a minimum.
abbrev pub IsPriced : Requirements → List Text → JobKind → List Pay → Type 0
IsPriced p accepted kind items =
    All (λ (item : Pay). applies p accepted kind item ≡ true → (amount_of item == none) ≡ false)
      items

-- The constraints of the query select what applies.
constraints-applies :
    (p : Requirements) (accepted : List Text) (kind : JobKind) (item : Pay)
    → holds (pay_constraints p accepted kind item) ≡ applies p accepted kind item
unfolding pay_constraints applies holds and_all and3 in3 is_accepted_key
constraints-applies p accepted kind item = ground arith

comparable-applies :
    (p : Requirements) (accepted : List Text) (kind : JobKind) (items : List Pay)
    → IsPriced p accepted kind items
    → keep (is_comparable p accepted kind) items ≡ keep (applies p accepted kind) items
unfolding is_comparable
comparable-applies p accepted kind [] h = refl
comparable-applies p accepted kind (item ∷ items) h = ground (
  arith,
  h.0,
  constraints-applies p accepted kind item,
  comparable-applies p accepted kind items h.1,
)

abbrev AreAmounts : List Pay → Type 0
AreAmounts items = All (λ (item : Pay). (amount_of item == none) ≡ false) items

applies-AreAmounts :
    (p : Requirements) (accepted : List Text) (kind : JobKind) (items : List Pay)
    → IsPriced p accepted kind items
    → AreAmounts (keep (applies p accepted kind) items)
applies-AreAmounts p accepted kind [] h = tt
applies-AreAmounts p accepted kind (item ∷ items) h =
    ground (arith, h.0, applies-AreAmounts p accepted kind items h.1)

some-amounts :
    (items : List Pay)
    → AreAmounts items
    → not (is_empty (amounts_of items)) ≡ any (λ (item : Pay). true) items
unfolding amounts_of
some-amounts [] h = refl
some-amounts (item ∷ items) h = ground (arith, h.0)

meets-maximum :
    (floor : ℕ) (items : List Pay)
    → AreAmounts items
    → any (λ (item : Pay). holds (reaches3 floor (amount_of item))) items
      ≡ (not (is_empty (amounts_of items)) && leb floor (maximum_of (amounts_of items)))
unfolding amounts_of maximum_of holds reaches3
meets-maximum floor [] h = refl
meets-maximum floor (item ∷ items) h = ground (arith, h.0, meets-maximum floor items h.1)

pay_value :
    (floor : ℕ) (conflicting : Bool) (items : List Pay)
    → AreAmounts items
    → Tallies (pay_judged floor conflicting items (amounts_of items)) (
        let comparable = some (any (λ (item : Pay). true) items) in
        let meets = some (any (λ (item : Pay). holds (reaches3 floor (amount_of item))) items) in
        let unbounded = some (any (λ (item : Pay). item.maximum == none) items) in
        record {
          failures =
              and_all (
                some true ∷ comparable ∷ not3 meets ∷ not3 unbounded ∷ not3 (some conflicting) ∷ [])
              ∷ [];
          doubts =
              and3
                (some true)
                (or_all (some conflicting ∷ not3 comparable ∷ and3 (not3 meets) unbounded ∷ []))
              ∷ [];
        })
unfolding pay_judged passing failing reviewing holds or_all and_all or3 and3 not3
pay_value floor conflicting items h =
    let a = some-amounts items h in
    let b = meets-maximum floor items h in
    record { on_failure = ground arith; on_review = ground arith }

same_kind : (k : JobKind) → (k == k) ≡ true
unfolding JobKind-discrete
same_kind JobKind.internship = refl
same_kind JobKind.new_grad = refl

pub pay-Tallies :
    (p : Requirements) (accepted : List Text) (kind : JobKind) (d : Facts) (o : Option ℕ)
    → IsPriced p accepted kind d.compensation
    → Tallies (pay_findings p accepted kind d o) (pay_conditions p accepted kind d kind o)
unfolding pay_findings pay_conditions holds or_all nothing_found no_conditions
pay-Tallies p accepted kind d none h = record { on_failure = refl; on_review = refl }
pay-Tallies p accepted kind d (some floor) h =
    rw (same_kind kind, comparable-applies p accepted kind d.compensation h)
      (pay_value floor d.pay_conflicting (keep (applies p accepted kind) d.compensation)
        (applies-AreAmounts p accepted kind d.compensation h))

pub other_kind :
    (p : Requirements) (accepted : List Text) (job_kind kind : JobKind) (d : Facts) (o : Option ℕ)
    → (job_kind == kind) ≡ false
    → Tallies nothing_found (pay_conditions p accepted job_kind d kind o)
unfolding pay_conditions holds or_all or3 and_all and3 nothing_found no_conditions
other_kind p accepted job_kind kind d none h = record { on_failure = refl; on_review = refl }
other_kind p accepted job_kind kind d (some floor) h =
    rw h (record { on_failure = refl; on_review = refl })
