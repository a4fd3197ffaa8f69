-- ===== src/Ingestion/Models.antt =====
-- app/schemas/job.py NormalizedJob, app/db/models.py JobPosting and JobOccurrence, and what the write
-- takes from app/services/hasher.py and app/services/source_identity.py.
use job_ping.Base.{ℕ, Bool, true, false, ◌&&◌, Option, none, some, Text, ◌==◌, nat_eq, list_eq}

abbrev pub Instant : Type 0
Instant = ℕ

-- A namespace and an external id, where the source has both and neither is empty. An empty source or
-- source id is `none` here, as the code's tests of them take it.
pub record Identity : Type 0 where
  pub namespace : Text
  pub external_id : Text

unfoldable pub same_identity : Identity → Identity → Bool
same_identity i j = i.namespace == j.namespace && i.external_id == j.external_id

pub record NormalizedJob : Type 0 where
  pub company_id : ℕ
  pub title : Text
  pub base_hash : Text
  pub content_hash : Text
  pub apply_url : Text
  pub location : Text
  pub location_source : Option Text
  pub season : ℕ
  pub job_type : ℕ
  pub is_closed : Bool
  pub posted_at : Option Instant
  pub observed_at : Option Instant
  pub source : Option Text
  pub source_id : Option Text
  pub identity : Option Identity
  pub is_reposted : Bool
  pub updated_at : Option Instant

pub record JobPosting : Type 0 where
  pub company_id : ℕ
  pub title : Text
  pub content_hash : Text
  pub apply_url : Text
  pub location : Text
  pub location_source : Option Text
  pub season : ℕ
  pub job_type : ℕ
  pub is_closed : Bool
  pub posted_at : Option Instant
  pub updated_at : Instant

pub record JobOccurrence : Type 0 where
  pub is_repost : Bool
  pub observed_at : Instant
  pub posted_at : Option Instant
  pub apply_url : Text
  pub identity : Option Identity
  pub source : Option Text
  pub source_id : Option Text
  pub closed_at : Option Instant

-- The text functions that stand on URL parsing, Unicode tables and SHA-256: canonicalize_apply_url, the
-- casefolded host of a URL without `www.`, generate_content_hash, stable_posting_identity (of a source,
-- a source id and a URL), a source's name stripped and casefolded, and the normal forms of a location
-- and of a source's name in location_reconciliation.
pub record Rules : Type 0 where
  pub canonicalize : Text → Text
  pub url_host : Text → Text
  pub content_hash : Text → Text → Text → Bool → Text
  pub posting_identity : Option Text → Option Text → Text → Option Identity
  pub folded_source : Text → Text
  pub normal_location : Text → Text
  pub normal_source : Text → Text

unfoldable pub is_some {ℓ} : {A : Type ℓ} → Option A → Bool
is_some none = false
is_some (some _) = true

-- `a or b`
unfoldable pub or_else {ℓ} : {A : Type ℓ} → Option A → Option A → Option A
or_else none b = b
or_else (some a) b = some a

unfoldable pub or_default {ℓ} : {A : Type ℓ} → Option A → A → A
or_default none b = b
or_default (some a) b = a
