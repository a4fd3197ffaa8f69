-- ===== src/Evidence/Screening/Sql.antt =====
-- app/evidence/screening.py bucket_expression: SQL conditions are three-valued, `none` is NULL.
use job_ping.Base.{
  ℕ, ◌-◌, Bool, true, false, not, Option, none, some, List, [], ◌∷◌, Text, codes, ltb, ◌==◌, nat_eq,
  list_eq, option_eq,
}
use job_ping.Evidence.Screening.Facts.{JobKind, Facts, facts_of, FilingRecord, job_kind_eq}

-- `a OR b`
unfoldable pub or3 : Option Bool → Option Bool → Option Bool
or3 (some true) b = some true
or3 (some false) b = b
or3 none (some true) = some true
or3 none (some false) = none
or3 none none = none

-- `a AND b`
unfoldable pub and3 : Option Bool → Option Bool → Option Bool
and3 (some false) b = some false
and3 (some true) b = b
and3 none (some false) = some false
and3 none (some true) = none
and3 none none = none

unfoldable pub not3 : Option Bool → Option Bool
not3 none = none
not3 (some b) = some (not b)

-- `column == text`
unfoldable pub equals3 : Option Text → Text → Option Bool
equals3 none t = none
equals3 (some s) t = some (s == t)

-- `coalesce(condition, false)`, and whether WHERE or CASE takes the row.
unfoldable pub holds : Option Bool → Bool
holds none = false
holds (some b) = b

unfoldable pub or_all : List (Option Bool) → Option Bool
unfolding or3
or_all [] = some false
or_all (c ∷ cs) = or3 c (or_all cs)

unfoldable pub and_all : List (Option Bool) → Option Bool
unfolding and3
and_all [] = some true
and_all (c ∷ cs) = and3 c (and_all cs)

-- What a check was made of, and the posting's own.
pub record Target : Type 0 where
  pub url : Option Text
  pub place : Option Text
  pub title : Option Text

pub record JobRow : Type 0 where
  pub is_closed : Bool
  pub job_kind : JobKind
  pub apply_url : Text
  pub place : Text
  pub title : Text
  pub immigration_records : List FilingRecord

-- The joined columns of EvidenceCheck: all NULL where there is no check.
pub record CheckRow : Type 0 where
  pub status : Option Text
  pub verified_at : Option ℕ
  pub target : Target
  pub projection : Option Facts

unfoldable pub is_newer3 : Option ℕ → ℕ → Option Bool
is_newer3 none now = none
is_newer3 (some t) now = some (ltb (now - 86400) t)

unfoldable pub is_fresh3 : Text → ℕ → JobRow → CheckRow → Option Bool
unfolding and_all equals3 is_newer3 facts_of
is_fresh3 version now job row = and_all (
    equals3 row.status (codes "complete")
    ∷ equals3 (facts_of row.projection).extraction_version version
    ∷ is_newer3 row.verified_at now
    ∷ equals3 row.target.url job.apply_url
    ∷ equals3 row.target.place job.place
    ∷ equals3 row.target.title job.title
    ∷ some (facts_of row.projection).us_role
    ∷ [])
