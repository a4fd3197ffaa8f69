-- ===== src/Ingestion/Examples.antt =====
-- Writes of small observations, with ASCII text as it is for its own normal form.
use job_ping.Ingestion.Models.{Identity, NormalizedJob, JobPosting, JobOccurrence, Rules, is_some}
use job_ping.Ingestion.Classifier.{OccurrenceEvidence, has_identity}
use job_ping.Ingestion.Location.{source_wins}
use job_ping.Ingestion.Store.{Rows, DeduplicationState, current_evidence}
use job_ping.Ingestion.Upsert.{upsert, prepared_on, content_changed}
use job_ping.Ingestion.Lifecycle.{Agrees, upsert-Agrees, upsert_announces, announced}
use job_ping.Ingestion.Reopening.{Warrant, opening_has_proof}
use job_ping.Base.{
  ◌+◌, ◌≡◌, refl, true, false, none, some, [], ◌∷◌, ◌++◌, length, codes, if◌then◌else◌, elem,
  nat_eq,
}
use job_ping.Ingestion.Posting.{url_preference, written_posting}
use job_ping.Ingestion.Composition.{read_fields, read_fields-composed}
use job_ping.Ingestion.IdentityText.{composed}
use job_ping.Ingestion.SingleWrite.{save_job_posting}
use job_ping.Ingestion.SingleLaws.{save_agrees, AreInStep}

abbrev plain_rules : Rules
plain_rules = record {
  canonicalize = λ s. s;
  url_host = λ s. s;
  content_hash = λ base url location closed. url ++ location ++ (if closed then 1 ∷ [] else 0 ∷ []);
  posting_identity = λ source id url. none;
  folded_source = λ s. s;
  normal_location = λ s. s;
  normal_source = λ s. s;
}

abbrev ats_id : Identity
ats_id = record { namespace = codes "lever:acme"; external_id = codes "1" }

abbrev observed : NormalizedJob
observed = record {
  company_id = 1;
  title = codes "Intern";
  base_hash = codes "b";
  content_hash = codes "c";
  apply_url = codes "u";
  location = codes "Remote";
  location_source = some (codes "lever");
  season = 2026;
  job_type = 0;
  is_closed = false;
  posted_at = none;
  observed_at = none;
  source = some (codes "lever");
  source_id = some (codes "1");
  identity = some ats_id;
  is_reposted = false;
  updated_at = none;
}

abbrev closing : NormalizedJob
closing = record observed { is_closed = true }

-- The same job from a feed, without the identity of the ATS.
abbrev feed : NormalizedJob
feed = record observed { identity = none; source = some (codes "simplify_github") }

abbrev no_rows : Rows
no_rows = record { posting = none; occurrences = []; observations = []; events = []; log = [] }

abbrev closed_posting : JobPosting
closed_posting = record {
  company_id = 1;
  title = codes "Intern";
  content_hash = codes "c";
  apply_url = codes "u";
  location = codes "Remote";
  location_source = some (codes "lever");
  season = 2026;
  job_type = 0;
  is_closed = true;
  posted_at = none;
  updated_at = 20;
}

abbrev closed_occurrence : JobOccurrence
closed_occurrence = record {
  is_repost = false;
  observed_at = 10;
  posted_at = none;
  apply_url = codes "u";
  identity = some ats_id;
  source = some (codes "lever");
  source_id = some (codes "1");
  closed_at = some 20;
}

abbrev closed_rows : Rows
closed_rows = record no_rows { posting = some closed_posting; occurrences = closed_occurrence ∷ [] }

abbrev opened_posting : JobPosting
opened_posting = record closed_posting { is_closed = false; updated_at = 30 }

reopened : (upsert plain_rules 30 observed closed_rows).1.posting ≡ some opened_posting
unfolding upsert url_preference has_identity elem
reopened = refl

first_state : (upsert plain_rules 10 observed no_rows).0 ≡ DeduplicationState.new_role
unfolding upsert url_preference
first_state = refl

feed_state : (upsert plain_rules 30 feed closed_rows).0 ≡ DeduplicationState.no_op
unfolding upsert url_preference elem
feed_state = refl

upsert-Agrees_example : Agrees (upsert plain_rules 30 feed closed_rows).1
upsert-Agrees_example = upsert-Agrees plain_rules 30 feed closed_rows

opening_has_proof_example :
    (observed.is_closed ≡ false)
    × ((e : OccurrenceEvidence) × (current_evidence plain_rules closed_rows ≡ some e)
        × Warrant plain_rules observed closed_posting e)
opening_has_proof_example =
    opening_has_proof plain_rules 30 observed closed_rows closed_posting opened_posting refl refl
      reopened refl

upsert_announces_example :
    length (upsert plain_rules 30 observed closed_rows).1.events
    ≡ 0 + announced (upsert plain_rules 30 observed closed_rows).0 false
upsert_announces_example =
    upsert_announces plain_rules 30 observed closed_rows opened_posting reopened

lever_wins : source_wins plain_rules (some (codes "lever")) (some (codes "lever")) ≡ true
unfolding source_wins
lever_wins = refl

read_fields-composed_example :
    read_fields 2 (composed (codes "ab" ∷ codes "1:c" ∷ [])) ≡ some (codes "ab" ∷ codes "1:c" ∷ [])
read_fields-composed_example = read_fields-composed (codes "ab" ∷ codes "1:c" ∷ [])

composes : composed (codes "ab" ∷ codes "1:c" ∷ []) ≡ codes "2:ab3:1:c"
unfolding composed
composes = refl

in_step : AreInStep closed_rows.posting closed_rows.occurrences
unfolding is_some
in_step = refl

save_agrees_example :
    let s = save_job_posting plain_rules 30 observed closed_rows in
    let b = upsert plain_rules 30 observed closed_rows in
    let prepared = prepared_on plain_rules observed closed_rows in
    (s.1.occurrences ≡ b.1.occurrences)
    × (s.1.observations ≡ b.1.observations)
    × (s.1.events ≡ b.1.events)
    × (s.1.log ≡ [])
    × (prepared.is_reposted ≡ false → s.1.posting ≡ b.1.posting)
    × (content_changed
            (some closed_posting)
            (written_posting plain_rules 30 prepared (some closed_posting))
          ≡ false
        → s.0 ≡ b.0)
save_agrees_example = save_agrees plain_rules 30 observed closed_rows in_step
