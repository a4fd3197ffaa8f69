-- ===== src/Ingestion/SingleWrite.antt =====
-- app/db/repository.py save_job_posting_with_outcome: the write of one job by the ORM, where the job's company has its
-- id already. The merge of details, the queue of evidence and the published events are not modelled.
use job_ping.Base.{
  Bool, true, false, not, ◌&&◌, Option, none, some, List, [], ◌∷◌, ◌++◌, ltb, if◌then◌else◌,
}
use job_ping.Ingestion.Posting.{differs, inserted, effective_job}
use job_ping.Ingestion.Models.{
  JobPosting, Rules, Instant, NormalizedJob, is_some, JobOccurrence, or_default,
}
use job_ping.Ingestion.Occurrences.{
  new_occurrence, observe, event_of, observation_of, state_for_persistence, Step,
}
use job_ping.Ingestion.Upsert.{prepared_on}
use job_ping.Ingestion.Classifier.{is_same_repost_occurrence}
use job_ping.Ingestion.Store.{Rows, DeduplicationState}

-- `current_posted_at is None or effective_job.posted_at < current_posted_at`
unfoldable pub lowered : Option Instant → Option Instant → Option Instant
lowered old none = old
lowered none (some t) = some t
lowered (some a) (some t) = if ltb t a then some t else some a

-- The columns of the existing posting, and its dates.
unfoldable pub assigned : JobPosting → JobPosting → JobPosting
unfolding lowered differs
assigned old new = record new {
  posted_at = lowered old.posted_at new.posted_at;
  updated_at = if differs old new then new.updated_at else old.updated_at;
}

unfoldable pub saved_posting : Rules → Instant → NormalizedJob → Option JobPosting → JobPosting
unfolding inserted assigned effective_job
saved_posting u now job none = inserted now (effective_job u job none)
saved_posting u now job (some old) = assigned old (inserted now (effective_job u job (some old)))

-- `bool(existing.is_closed) if existing is not None else False`
unfoldable pub posting_was_closed : Option JobPosting → Bool
posting_was_closed none = false
posting_was_closed (some p) = p.is_closed

unfoldable pub first_step : Rules → Instant → NormalizedJob → Bool → List JobOccurrence → Step
unfolding new_occurrence event_of
first_step u now job is_closed os = record {
  occurrences = new_occurrence u now job is_closed false ∷ os;
  is_new_occurrence = true;
  new_events = if is_closed then [] else event_of (new_occurrence u now job is_closed false) ∷ [];
  was_created = true;
  created_repost = false;
}

-- The branches on an existing posting, by whether it was closed.
unfoldable pub later_step :
    Rules → Instant → NormalizedJob → Bool → Bool → List JobOccurrence → Step
unfolding new_occurrence is_same_repost_occurrence event_of is_some or_default
later_step u now job closed_before is_closed [] = record {
  occurrences = new_occurrence u now job is_closed false ∷ [];
  is_new_occurrence = true;
  new_events = [];
  was_created = false;
  created_repost = false;
}
later_step u now job closed_before is_closed (o ∷ os) =
    if job.is_reposted
      && is_some o.closed_at
      && not is_closed
      && not (is_same_repost_occurrence u job o)
    then record {
      occurrences = new_occurrence u now job is_closed true ∷ o ∷ os;
      is_new_occurrence = true;
      new_events = event_of (new_occurrence u now job is_closed true) ∷ [];
      was_created = false;
      created_repost = true;
    }
    else record {
      occurrences =
          (if not closed_before && is_closed
            then record o { closed_at = some (or_default job.observed_at now) }
            else if closed_before && not is_closed
            then record o { closed_at = none }
            else o)
          ∷ os;
      is_new_occurrence = false;
      new_events = [];
      was_created = false;
      created_repost = false;
    }

unfoldable pub save_step :
    Rules → Instant → NormalizedJob → Option JobPosting → Bool → List JobOccurrence → Step
unfolding first_step later_step
save_step u now job none is_closed os = first_step u now job is_closed os
save_step u now job (some old) is_closed os = later_step u now job old.is_closed is_closed os

unfoldable pub save_follow :
    Rules → Instant → NormalizedJob → NormalizedJob → JobPosting → Rows → DeduplicationState × Rows
unfolding save_step posting_was_closed observe observation_of state_for_persistence
save_follow u now observed job p r =
    let step = save_step u now job r.posting p.is_closed r.occurrences in
    (
      state_for_persistence step.was_created step.created_repost
          (some (posting_was_closed r.posting)) p.is_closed false,
      record r {
        posting = some p;
        occurrences = step.occurrences;
        observations =
            observe (observation_of u observed)
              (if step.is_new_occurrence then [] else r.observations);
        events = r.events ++ step.new_events;
      },
    )

unfoldable pub save_job_posting : Rules → Instant → NormalizedJob → Rows → DeduplicationState × Rows
unfolding prepared_on saved_posting save_follow
save_job_posting u now job r =
    let prepared = prepared_on u job r in
    save_follow u now job prepared (saved_posting u now prepared r.posting) r
