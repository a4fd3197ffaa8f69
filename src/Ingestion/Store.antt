-- ===== src/Ingestion/Store.antt =====
-- What app/db/repository.py stores of the jobs of one base hash, and the evidence that it reads from it.
use job_ping.Base.{
  bool_eq, Bool, Option, none, some, List, [], ◌∷◌, Text, nat_eq, list_eq, option_eq,
}
use job_ping.Ingestion.Models.{Instant, Identity, JobPosting, JobOccurrence, Rules}
use job_ping.Ingestion.Classifier.{OccurrenceEvidence}

-- app/services/deduplicator.py DeduplicationState
pub data DeduplicationState : Type 0 where
  new_role : DeduplicationState
  role_updated : DeduplicationState
  role_closed : DeduplicationState
  role_reposted : DeduplicationState
  no_op : DeduplicationState

-- A row of JobSourceObservation of the latest occurrence.
pub record Observation : Type 0 where
  pub source : Text
  pub source_id : Text
  pub identity : Option Identity

-- A row of DiscoveryEvent and one of StatusLog.
pub record DiscoveryEvent : Type 0 where
  pub is_repost : Bool
  pub discovered_at : Instant

pub record StatusLog : Type 0 where
  pub previous_closed : Option Bool
  pub now_closed : Bool

-- What is stored of one base hash, the latest occurrence first.
pub record Rows : Type 0 where
  pub posting : Option JobPosting
  pub occurrences : List JobOccurrence
  pub observations : List Observation
  pub events : List DiscoveryEvent
  pub log : List StatusLog

abbrev pub cons_some {ℓ} : {A : Type ℓ} → Option A → List A → List A
cons_some none xs = xs
cons_some (some x) xs = x ∷ xs

unfoldable pub identities_of : List Observation → List Identity
identities_of [] = []
identities_of (o ∷ os) = cons_some o.identity (identities_of os)

-- get_current_occurrence_evidence
unfoldable pub current_evidence : Rules → Rows → Option OccurrenceEvidence
unfolding identities_of
current_evidence u r = elim r.occurrences [
  | [] ↦ none
  | o ∷ _ ↦ some (record {
    occurrence = o;
    identities =
        cons_some (u.posting_identity o.source o.source_id o.apply_url)
          (cons_some o.identity (identities_of r.observations));
  })
]
