-- ===== src/Evidence/Screening/Facts.antt =====
-- app/evidence/schemas.py Requirements, and the JSON that app/evidence/screening.py reads. Amounts are in cents, and
-- an absent key and a null are both `none`.
use job_ping.Base.{
  ℕ, Bool, false, not, ◌&&◌, ◌||◌, Option, none, some, List, [], ◌∷◌, Text, codes, is_empty, leb,
  if◌then◌else◌, ◌==◌, discrete_eq, Eq, nat_eq, option_eq, list_eq,
}

pub data Authorization : Type 0 where
  cpt : Authorization
  opt : Authorization
  stem_opt : Authorization
  unrestricted : Authorization

unfoldable pub Authorization-discrete : Discrete Authorization
Authorization-discrete = hlevel

instance abbrev pub authorization_eq : Eq Authorization
authorization_eq = discrete_eq Authorization-discrete

pub data JobKind : Type 0 where
  internship : JobKind
  new_grad : JobKind

unfoldable pub JobKind-discrete : Discrete JobKind
JobKind-discrete = hlevel

instance abbrev pub job_kind_eq : Eq JobKind
job_kind_eq = discrete_eq JobKind-discrete

pub record Requirements : Type 0 where
  pub authorization : Option Authorization
  pub future_sponsorship : Bool
  pub locations : List Text
  pub internship_hourly : Option ℕ
  pub new_grad_annual : Option ℕ
  pub currency : Text

unfoldable pub is_configured : Requirements → Bool
is_configured p =
    not (p.authorization == none)
    || p.future_sponsorship
    || not (is_empty p.locations)
    || not (p.internship_hourly == none)
    || not (p.new_grad_annual == none)

-- One item of `compensation`, with what `projection` adds.
pub record Pay : Type 0 where
  pub component : Text
  pub interval : Text
  pub pay_currency : Text
  pub us : Bool
  pub location : Option Text
  pub minimum : Option ℕ
  pub maximum : Option ℕ

-- `projection`. The restrictions have the two keys that extract_facts gives them.
pub record Facts : Type 0 where
  pub extraction_version : Option Text
  pub us_role : Bool
  pub policies : List (Text × Text)
  pub citizenship_required : Option Text
  pub permanent_authorization_required : Option Text
  pub location : Option Text
  pub compensation : List Pay
  pub pay_conflicting : Bool

-- `data or {}`
unfoldable pub no_facts : Facts
no_facts = record {
  extraction_version = none;
  us_role = false;
  policies = [];
  citizenship_required = none;
  permanent_authorization_required = none;
  location = none;
  compensation = [];
  pay_conflicting = false;
}

unfoldable pub facts_of : Option Facts → Facts
unfolding no_facts
facts_of none = no_facts
facts_of (some d) = d

-- An entry of the employer's immigration records.
pub record FilingRecord : Type 0 where
  pub filing_kind : Text
  pub filings : ℕ
  pub year : ℕ

-- `policies.get(key, {}).get("value", "unknown")`, and the coalesce of the same path.
unfoldable pub stated_policy : Text → List (Text × Text) → Text
stated_policy key [] = codes "unknown"
stated_policy key ((k, v) ∷ ps) = let rest = stated_policy key ps in if k == key then v else rest

unfoldable pub authorization_key : Authorization → Text
authorization_key cpt = codes "cpt"
authorization_key opt = codes "opt"
authorization_key stem_opt = codes "stem_opt"
authorization_key unrestricted = codes "unrestricted"

-- The authorization that a policy must allow: `authorization and authorization != "unrestricted"`.
unfoldable pub needed : Option Authorization → Option Authorization
needed none = none
needed (some a) = if a == Authorization.unrestricted then none else some a

unfoldable pub needs_work_auth : Requirements → Bool
unfolding needed
needs_work_auth p = not (needed p.authorization == none) || p.future_sponsorship

unfoldable pub is_filing : FilingRecord → Bool
is_filing r =
    (r.filing_kind == codes "h1b_filings" || r.filing_kind == codes "h1b_approvals")
    && leb 1 r.filings

unfoldable pub floor_for : Requirements → JobKind → Option ℕ
floor_for p JobKind.internship = p.internship_hourly
floor_for p JobKind.new_grad = p.new_grad_annual

unfoldable pub period_of : JobKind → Text
period_of JobKind.internship = codes "hour"
period_of JobKind.new_grad = codes "year"
