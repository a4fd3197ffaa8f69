-- ===== src/Ingestion/Upsert.antt =====
-- app/db/repository.py bulk_upsert_job_postings_with_outcomes, for one job of a batch: its rows are those
-- of its base hash, and base hashes are unique in a batch. One transaction, with no other between its
-- read and its write; the job's company has its id already. The merge of details, the queue of evidence
-- the published events and the switch that suppresses discovery events are not modelled.
use job_ping.Base.{
  bool_eq, Bool, true, false, not, Option, none, some, List, [], ◌∷◌, ◌++◌, if◌then◌else◌, ◌==◌,
  nat_eq, list_eq, option_eq,
}
use job_ping.Ingestion.Models.{Instant, NormalizedJob, JobPosting, Rules}
use job_ping.Ingestion.Classifier.{OccurrenceDecision, decide_occurrence, prepare_candidate}
use job_ping.Ingestion.Store.{DeduplicationState, StatusLog, Rows, current_evidence}
use job_ping.Ingestion.Posting.{written_posting}
use job_ping.Ingestion.Occurrences.{
  state_for_persistence, was_closed, occurrence_step, observation_of, observe,
}

unfoldable pub content_changed : Option JobPosting → JobPosting → Bool
content_changed none p = false
content_changed (some old) p = not (old.content_hash == p.content_hash)

unfoldable pub status_entry : Option Bool → Bool → List StatusLog
status_entry previous is_closed =
    if previous == some is_closed
    then []
    else record { previous_closed = previous; now_closed = is_closed } ∷ []

unfoldable pub is_none {ℓ} : {A : Type ℓ} → Option A → Bool
is_none none = true
is_none (some _) = false

-- The rows after the posting `p` was written for the prepared job.
unfoldable pub follow :
    Rules → Instant → NormalizedJob → NormalizedJob → JobPosting → Rows → DeduplicationState × Rows
unfolding occurrence_step was_closed observe observation_of content_changed state_for_persistence
    status_entry is_none
follow u now observed job p r =
    let step = occurrence_step u now job (is_none r.posting) p.is_closed r.occurrences in
    (
      state_for_persistence step.was_created step.created_repost (was_closed r) p.is_closed
          (content_changed r.posting p),
      record {
        posting = some p;
        occurrences = step.occurrences;
        observations =
            observe (observation_of u observed)
              (if step.is_new_occurrence then [] else r.observations);
        events = r.events ++ step.new_events;
        log = r.log ++ status_entry (was_closed r) p.is_closed;
      },
    )

unfoldable pub decision_on : Rules → NormalizedJob → Rows → OccurrenceDecision
unfolding decide_occurrence current_evidence
decision_on u job r = decide_occurrence u job r.posting (current_evidence u r)

unfoldable pub prepared_on : Rules → NormalizedJob → Rows → NormalizedJob
unfolding prepare_candidate decision_on
prepared_on u job r = prepare_candidate u job (decision_on u job r) r.posting

unfoldable pub upsert : Rules → Instant → NormalizedJob → Rows → DeduplicationState × Rows
unfolding prepared_on written_posting follow
upsert u now job r =
    let prepared = prepared_on u job r in
    follow u now job prepared (written_posting u now prepared r.posting) r
