-- ===== src/Ingestion/Reopening.antt =====
-- What it takes to open a closed job: app/services/repost_classifier.py, in a write of
-- app/db/repository.py bulk_upsert_job_postings_with_outcomes.
use mathlib.Core.Bool.{true≢false}
use mathlib.Core.Option.{some_inj}
use mathlib.Core.Path.{subst}
use job_ping.Base.{bool_eq}
use job_ping.Ingestion.Models.{Instant, NormalizedJob, JobPosting, Rules, is_some}
use job_ping.Ingestion.Classifier.{
  OccurrenceDecision, OccurrenceEvidence, candidate_identity, comparable_identities, is_known,
  is_repost_candidate, decide_closed, decide_occurrence, prepare_candidate, keep_closed,
  closed_decision,
}
use job_ping.Ingestion.Store.{Rows, current_evidence}
use job_ping.Ingestion.Posting.{written_posting, inserted, updated, effective_job}
use job_ping.Ingestion.Upsert.{follow, decision_on, prepared_on, upsert}
use job_ping.Base.{
  ◌≡◌, refl, ◌⊎◌, inl, inr, Bool, true, false, Option, none, some, arith, Bool-cases, sym, ap, ◌∙◌,
  nat_eq, option_eq,
}

written_posting-is_closed :
    (u : Rules) (now : Instant) (job : NormalizedJob) (old : Option JobPosting)
    → (written_posting u now job old).is_closed ≡ job.is_closed
unfolding written_posting inserted updated effective_job
written_posting-is_closed u now job none = refl
written_posting-is_closed u now job (some old) = refl

-- What it takes to take an open observation of a closed job as more than ambiguous.
unfoldable pub Warrant : Rules → NormalizedJob → JobPosting → OccurrenceEvidence → Type 0
Warrant u job existing e =
    (is_known (candidate_identity u job)
        (comparable_identities (candidate_identity u job) e.identities)
      ≡ true)
    ⊎ (is_repost_candidate u job existing e ≡ true)

closed_decision-cases :
    (known closed reposts : Bool)
    → (closed_decision known closed reposts ≡ OccurrenceDecision.ambiguous_reopen)
      ⊎ ((known ≡ true) ⊎ (reposts ≡ true))
unfolding closed_decision
closed_decision-cases true closed reposts = inr (inl refl)
closed_decision-cases false closed true = inr (inr refl)
closed_decision-cases false true false = inl refl
closed_decision-cases false false false = inl refl

decide_closed-cases :
    (u : Rules) (job : NormalizedJob) (existing : JobPosting) (evidence : Option OccurrenceEvidence)
    → (decide_closed u job existing evidence ≡ OccurrenceDecision.ambiguous_reopen)
      ⊎ ((e : OccurrenceEvidence) × (evidence ≡ some e) × Warrant u job existing e)
unfolding decide_closed Warrant
decide_closed-cases u job existing none = inl refl
decide_closed-cases u job existing (some e) =
    let incoming = candidate_identity u job in
    elim (closed_decision-cases (is_known incoming (comparable_identities incoming e.identities))
      (is_some e.occurrence.closed_at) (is_repost_candidate u job existing e)) [
        | inl weak ↦ inl weak
        | inr why ↦ inr (e, refl, why)
      ]

prepare-closed :
    (u : Rules) (job : NormalizedJob) (existing : JobPosting)
    → (prepare_candidate u job OccurrenceDecision.ambiguous_reopen (some existing)).is_closed ≡ true
unfolding prepare_candidate keep_closed
prepare-closed u job existing = refl

prepare-open :
    (u : Rules) (job : NormalizedJob) (d : OccurrenceDecision) (existing : Option JobPosting)
    → job.is_closed ≡ true
    → (prepare_candidate u job d existing).is_closed ≡ true
unfolding prepare_candidate keep_closed
prepare-open u job OccurrenceDecision.discover existing h = h
prepare-open u job OccurrenceDecision.open_update existing h = h
prepare-open u job OccurrenceDecision.close existing h = h
prepare-open u job OccurrenceDecision.reopen existing h = h
prepare-open u job OccurrenceDecision.repost existing h = h
prepare-open u job OccurrenceDecision.ambiguous_reopen none h = h
prepare-open u job OccurrenceDecision.ambiguous_reopen (some existing) h = refl

decide_reaches :
    (u : Rules) (job : NormalizedJob) (old : JobPosting) (evidence : Option OccurrenceEvidence)
    → job.is_closed ≡ false
    → old.is_closed ≡ true
    → decide_occurrence u job (some old) evidence ≡ decide_closed u job old evidence
unfolding decide_occurrence
decide_reaches u job old evidence seen closed = ground arith

-- An open observation of a closed job that is prepared as open.
prepared_open-proof :
    (u : Rules) (job : NormalizedJob) (old : JobPosting) (evidence : Option OccurrenceEvidence)
    → old.is_closed ≡ true
    → (prepare_candidate u job (decide_occurrence u job (some old) evidence) (some old)).is_closed
      ≡ false
    → (job.is_closed ≡ false)
      × ((e : OccurrenceEvidence) × (evidence ≡ some e) × Warrant u job old e)
prepared_open-proof u job old evidence closed opened = elim (Bool-cases job.is_closed) [
  | inl shut ↦ absurd (true≢false (sym (prepare-open u job _ (some old) shut) ∙ opened))
  | inr seen ↦ elim (decide_closed-cases u job old evidence) [
    | inl weak ↦ absurd (
        true≢false (
          sym (prepare-closed u job old)
          ∙ ap (λ d. (prepare_candidate u job d (some old)).is_closed)
              (sym weak ∙ sym (decide_reaches u job old evidence seen closed))
          ∙ opened))
    | inr proof ↦ (seen, proof)
  ]
]

-- A closed posting that a write opens has a latest occurrence whose identities include the job's, or
-- one that the job reposts; and the job was observed open.
pub opening_has_proof :
    (u : Rules) (now : Instant) (job : NormalizedJob) (r : Rows) (old p : JobPosting)
    → r.posting ≡ some old
    → old.is_closed ≡ true
    → (upsert u now job r).1.posting ≡ some p
    → p.is_closed ≡ false
    → (job.is_closed ≡ false)
      × ((e : OccurrenceEvidence) × (current_evidence u r ≡ some e) × Warrant u job old e)
unfolding upsert follow prepared_on decision_on
opening_has_proof u now job r old p stored closed after opened =
    subst
      (λ x.
        (prepare_candidate u job (decide_occurrence u job x (current_evidence u r)) x).is_closed
          ≡ false
        → (job.is_closed ≡ false)
          × ((e : OccurrenceEvidence) × (current_evidence u r ≡ some e) × Warrant u job old e))
      (sym stored) (prepared_open-proof u job old (current_evidence u r) closed)
      (sym (written_posting-is_closed u now (prepared_on u job r) r.posting)
        ∙ ap (λ (x : JobPosting). x.is_closed) (some_inj.0 after)
        ∙ opened)
