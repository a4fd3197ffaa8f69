-- ===== src/Ingestion/Location.antt =====
-- app/services/location_reconciliation.py: which of two sources' locations a posting keeps.
use job_ping.Ingestion.Models.{NormalizedJob, Rules}
use job_ping.Base.{
  ℕ, Bool, true, false, not, ◌&&◌, ◌||◌, Option, none, some, [], ◌∷◌, Text, codes, is_empty, ltb,
  if◌then◌else◌, ◌==◌, elem, nat_eq, list_eq,
}

unfoldable pub is_meaningful_location : Rules → Option Text → Bool
is_meaningful_location u none = false
is_meaningful_location u (some value) =
    let normalized = u.normal_location value in
    not (is_empty normalized)
    && not (elem normalized (codes "unspecified" ∷ codes "unknown" ∷ codes "n/a" ∷ []))

-- `normalized or None`
unfoldable pub source_name : Rules → Option Text → Option Text
source_name u none = none
source_name u (some source) =
    let normalized = u.normal_source source in if is_empty normalized then none else some normalized

-- _SOURCE_TIERS.get(name, 0)
unfoldable pub source_tier : Text → ℕ
source_tier name =
    if elem name (codes "applyguy_internships" ∷ codes "applyguy_new_grad" ∷ [])
    then 1
    else if name == codes "simplify_github"
    then 2
    else if elem name (
        codes "amazon_jobs"
        ∷ codes "greenhouse"
        ∷ codes "lever"
        ∷ codes "meta_careers"
        ∷ codes "workday"
        ∷ [])
    then 3
    else 0

-- `a < b` on strings.
unfoldable pub text_ltb : Text → Text → Bool
text_ltb s [] = false
text_ltb [] (c ∷ t) = true
text_ltb (a ∷ s) (b ∷ t) = ltb a b || a == b && text_ltb s t

-- _source_wins from the comparison of two names on.
unfoldable pub name_wins : Text → Text → Bool
unfolding source_tier text_ltb
name_wins candidate current =
    if candidate == current
    then true
    else if not (source_tier candidate == source_tier current)
    then ltb (source_tier current) (source_tier candidate)
    else if source_tier candidate == 0
    then false
    else text_ltb candidate current

unfoldable pub named_wins : Option Text → Option Text → Bool
unfolding name_wins
named_wins none none = true
named_wins none (some _) = false
named_wins (some candidate) none = not (source_tier candidate == 0)
named_wins (some candidate) (some current) = name_wins candidate current

unfoldable pub source_wins : Rules → Option Text → Option Text → Bool
unfolding named_wins source_name
source_wins u candidate current = named_wins (source_name u candidate) (source_name u current)

pub record Place : Type 0 where
  pub location : Text
  pub location_source : Option Text

-- `existing_location or incoming_location`
unfoldable pub location_or : Option Text → Text → Text
location_or none incoming = incoming
location_or (some existing) incoming = if is_empty existing then incoming else existing

unfoldable pub effective_place : Rules → NormalizedJob → Option Text → Option Text → Place
unfolding is_meaningful_location source_name source_wins location_or
effective_place u job existing_location existing_source =
    let incoming_source = source_name u job.location_source in
    let kept : Place = record {
      location = location_or existing_location job.location;
      location_source = existing_source;
    } in
    let taken : Place = record { location = job.location; location_source = incoming_source } in
    if not (is_meaningful_location u (some job.location))
    then kept
    else if not (is_meaningful_location u existing_location)
    then taken
    else if source_wins u incoming_source existing_source
    then taken
    else kept

unfoldable pub reconcile_location :
    Rules → NormalizedJob → Option Text → Option Text → NormalizedJob
unfolding effective_place
reconcile_location u job existing_location existing_source =
    let place = effective_place u job existing_location existing_source in
    record job {
      location = place.location;
      location_source = place.location_source;
      content_hash =
          if not (place.location == job.location)
          then u.content_hash job.base_hash job.apply_url place.location job.is_closed
          else job.content_hash;
    }
