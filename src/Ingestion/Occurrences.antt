-- ===== src/Ingestion/Occurrences.antt =====
-- app/db/repository.py bulk_upsert_job_postings_with_outcomes: the occurrences, events and observations of
-- a write, and the state that it reports.
use job_ping.Base.{
  bool_eq, Bool, true, false, not, ◌&&◌, Option, none, some, List, [], ◌∷◌, keep, if◌then◌else◌,
  ◌==◌, nat_eq, list_eq, option_eq,
}
use job_ping.Ingestion.Models.{
  Instant, NormalizedJob, JobOccurrence, Rules, is_some, or_else, or_default,
}
use job_ping.Ingestion.Classifier.{is_same_repost_occurrence}
use job_ping.Ingestion.Store.{DeduplicationState, Observation, DiscoveryEvent, Rows}

-- _create_occurrence
unfoldable pub new_occurrence : Rules → Instant → NormalizedJob → Bool → Bool → JobOccurrence
unfolding or_default
new_occurrence u now job is_closed is_repost = record {
  is_repost = is_repost;
  observed_at = or_default job.observed_at now;
  posted_at = job.posted_at;
  apply_url = u.canonicalize job.apply_url;
  identity = job.identity;
  source = job.source;
  source_id = job.source_id;
  closed_at = if is_closed then some (or_default job.observed_at now) else none;
}

-- _state_for_persistence
unfoldable pub state_for_persistence : Bool → Bool → Option Bool → Bool → Bool → DeduplicationState
state_for_persistence was_created created_repost previous_closed is_closed changed =
    if was_created
    then DeduplicationState.new_role
    else if created_repost
    then DeduplicationState.role_reposted
    else if previous_closed == some false && is_closed
    then DeduplicationState.role_closed
    else if previous_closed == some true && not is_closed
    then DeduplicationState.role_updated
    else if changed
    then DeduplicationState.role_updated
    else DeduplicationState.no_op

-- `occurrence_was_closed`
unfoldable pub was_closed : Rows → Option Bool
unfolding is_some
was_closed r = elim r.occurrences [
  | o ∷ _ ↦ some (is_some o.closed_at)
  | [] ↦ elim r.posting [ some p ↦ some p.is_closed | none ↦ none ]
]

-- What one write leaves of the occurrences and events, and what it did.
pub record Step : Type 0 where
  pub occurrences : List JobOccurrence
  pub is_new_occurrence : Bool
  pub new_events : List DiscoveryEvent
  pub was_created : Bool
  pub created_repost : Bool

unfoldable pub event_of : JobOccurrence → DiscoveryEvent
event_of o = record { is_repost = o.is_repost; discovered_at = o.observed_at }

-- The branches on the occurrences, for the posting as written; `fresh` when none was stored.
unfoldable pub occurrence_step :
    Rules → Instant → NormalizedJob → Bool → Bool → List JobOccurrence → Step
unfolding new_occurrence is_same_repost_occurrence event_of is_some or_default
occurrence_step u now job fresh is_closed [] = record {
  occurrences = new_occurrence u now job is_closed false ∷ [];
  is_new_occurrence = true;
  new_events =
      if fresh && not is_closed
      then event_of (new_occurrence u now job is_closed false) ∷ []
      else [];
  was_created = fresh;
  created_repost = false;
}
occurrence_step u now job fresh is_closed (o ∷ os) =
    if job.is_reposted
      && not fresh
      && is_some o.closed_at
      && not is_closed
      && not (is_same_repost_occurrence u job o)
    then record {
      occurrences = new_occurrence u now job is_closed true ∷ o ∷ os;
      is_new_occurrence = true;
      new_events = event_of (new_occurrence u now job is_closed true) ∷ [];
      was_created = false;
      created_repost = true;
    }
    else record {
      occurrences =
          (if not (is_some o.closed_at) && is_closed
            then record o { closed_at = some (or_default job.observed_at now) }
            else if is_some o.closed_at && not is_closed
            then record o { closed_at = none }
            else o)
          ∷ os;
      is_new_occurrence = false;
      new_events = [];
      was_created = false;
      created_repost = false;
    }

-- _source_observation_values
unfoldable pub observation_of : Rules → NormalizedJob → Option Observation
unfolding or_else
observation_of u job = elim job.source [
  | none ↦ none
  | some source ↦ elim job.source_id [
    | none ↦ none
    | some source_id ↦ some (record {
      source = source;
      source_id = source_id;
      identity =
          or_else (u.posting_identity (some source) (some source_id) job.apply_url) job.identity;
    })
  ]
]

-- `on_conflict_do_update` on the source and the source id.
unfoldable pub observe : Option Observation → List Observation → List Observation
observe none os = os
observe (some new) os =
    new ∷ keep (λ o. not (o.source == new.source && o.source_id == new.source_id)) os
