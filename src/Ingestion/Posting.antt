-- ===== src/Ingestion/Posting.antt =====
-- app/db/repository.py bulk_upsert_job_postings_with_outcomes: the posting's row, as the insert on conflict
-- writes it.
use mathlib.Core.List.{reverse}
use job_ping.Base.{
  bool_eq, Bool, not, ◌&&◌, ◌||◌, Option, none, some, [], Text, is_empty, ltb, if◌then◌else◌, ◌==◌,
  nat_eq, list_eq, option_eq, ℕ, List, ◌∷◌, codes, starts_with, elem,
}
use job_ping.Ingestion.Models.{Instant, NormalizedJob, JobPosting, Rules, or_default}
use job_ping.Ingestion.Location.{reconcile_location}

-- str.endswith
unfoldable pub ends_with : Text → Text → Bool
unfolding starts_with
ends_with suffix s = starts_with (reverse suffix) (reverse s)

unfoldable pub known_redirect_hosts : List Text
known_redirect_hosts =
    codes "applyguy.ai"
    ∷ codes "www.applyguy.ai"
    ∷ codes "simplify.jobs"
    ∷ codes "www.simplify.jobs"
    ∷ []

-- app/services/hasher.py _url_preference of a host.
unfoldable pub host_preference : Text → ℕ
unfolding ends_with known_redirect_hosts
host_preference host =
    if elem host known_redirect_hosts
    then 1
    else if ends_with (codes "greenhouse.io") host || ends_with (codes "lever.co") host
    then 4
    else if ends_with (codes "myworkdayjobs.com") host || ends_with (codes "workday.com") host
    then 4
    else if ends_with (codes "amazon.jobs") host || ends_with (codes "ashbyhq.com") host
    then 4
    else 3

unfoldable pub url_preference : Rules → Text → ℕ
unfolding host_preference
url_preference u url = host_preference (u.url_host url)

unfoldable pub choose_canonical_apply_url : Rules → Text → Text → Text
choose_canonical_apply_url u current_url incoming_url =
    let current = u.canonicalize current_url in
    let incoming = u.canonicalize incoming_url in
    if is_empty current
    then incoming
    else if is_empty incoming
    then current
    else if ltb (url_preference u current) (url_preference u incoming)
    then incoming
    else current

unfoldable pub effective_url : Rules → NormalizedJob → Option JobPosting → Text
unfolding choose_canonical_apply_url
effective_url u job none = choose_canonical_apply_url u [] job.apply_url
effective_url u job (some old) =
    if job.is_reposted
    then u.canonicalize job.apply_url
    else choose_canonical_apply_url u old.apply_url (choose_canonical_apply_url u [] job.apply_url)

unfoldable pub with_url : Rules → NormalizedJob → Text → NormalizedJob
with_url u job url = record job {
  apply_url = url;
  content_hash =
      if not (url == job.apply_url) || not (u.canonicalize job.apply_url == job.apply_url)
      then u.content_hash job.base_hash url job.location job.is_closed
      else job.content_hash;
}

unfoldable pub old_location : Option JobPosting → Option Text
old_location none = none
old_location (some p) = some p.location

unfoldable pub old_location_source : Option JobPosting → Option Text
old_location_source none = none
old_location_source (some p) = p.location_source

unfoldable pub effective_job : Rules → NormalizedJob → Option JobPosting → NormalizedJob
unfolding effective_url with_url old_location old_location_source reconcile_location
effective_job u job old =
    reconcile_location u (with_url u job (effective_url u job old)) (old_location old)
      (old_location_source old)

unfoldable pub inserted : Instant → NormalizedJob → JobPosting
unfolding or_default
inserted now job = record {
  company_id = job.company_id;
  title = job.title;
  content_hash = job.content_hash;
  apply_url = job.apply_url;
  location = job.location;
  location_source = job.location_source;
  season = job.season;
  job_type = job.job_type;
  is_closed = job.is_closed;
  posted_at = job.posted_at;
  updated_at = or_default job.updated_at now;
}

unfoldable pub earliest : Option Instant → Option Instant → Option Instant
earliest none b = b
earliest (some a) none = some a
earliest (some a) (some b) = if ltb a b then some a else some b

unfoldable pub differs : JobPosting → JobPosting → Bool
differs old new =
    not (
      old.company_id == new.company_id
      && old.title == new.title
      && old.content_hash == new.content_hash
      && old.apply_url == new.apply_url
      && old.location == new.location
      && old.season == new.season
      && old.job_type == new.job_type)
    || (if old.is_closed then not new.is_closed else new.is_closed)

-- `on_conflict_do_update` of the row `old` by the inserted values `new`.
unfoldable pub updated : Bool → JobPosting → JobPosting → JobPosting
unfolding earliest differs
updated reposted old new = record new {
  posted_at = if reposted then new.posted_at else earliest old.posted_at new.posted_at;
  updated_at = if differs old new then new.updated_at else old.updated_at;
}

unfoldable pub written_posting : Rules → Instant → NormalizedJob → Option JobPosting → JobPosting
unfolding inserted updated effective_job
written_posting u now job none = inserted now (effective_job u job none)
written_posting u now job (some old) =
    updated job.is_reposted old (inserted now (effective_job u job (some old)))
