-- ===== src/Ingestion/Lifecycle.antt =====
-- What a write of app/db/repository.py bulk_upsert_job_postings_with_outcomes leaves of a job: its closure,
-- its occurrences, its events and the state that it reports.
use mathlib.Core.Option.{some_inj}
use job_ping.Base.{bool_eq}
use job_ping.Ingestion.Models.{Instant, NormalizedJob, JobPosting, JobOccurrence, Rules, is_some}
use job_ping.Ingestion.Classifier.{is_same_repost_occurrence}
use job_ping.Ingestion.Store.{Rows, DeduplicationState}
use job_ping.Ingestion.Posting.{written_posting}
use job_ping.Ingestion.Occurrences.{
  new_occurrence, state_for_persistence, occurrence_step, was_closed,
}
use job_ping.Ingestion.Upsert.{follow, prepared_on, upsert, is_none, content_changed}
use job_ping.Base.{
  ◌≡◌, refl, inl, inr, Bool, true, false, not, ◌&&◌, Option, some, List, [], ◌∷◌, arith, Bool-cases,
  ℕ, ◌+◌, ap, length, length-append, if◌then◌else◌, ◌==◌, nat_eq, option_eq,
}

-- The posting is closed exactly when its latest occurrence is.
unfoldable pub Agrees : Rows → Type 0
Agrees r =
    (p : JobPosting) × (o : JobOccurrence) × (os : List JobOccurrence) × (r.posting ≡ some p)
    × (r.occurrences ≡ o ∷ os)
    × (p.is_closed ≡ is_some o.closed_at)

step-closed :
    (u : Rules) (now : Instant) (job : NormalizedJob) (fresh is_closed : Bool)
    (os : List JobOccurrence)
    → (o : JobOccurrence) × (rest : List JobOccurrence) × ((occurrence_step u now job fresh
          is_closed os).occurrences
        ≡ o ∷ rest)
      × (is_closed ≡ is_some o.closed_at)
unfolding occurrence_step is_some
step-closed u now job fresh is_closed [] =
    (new_occurrence u now job is_closed false, [], refl, ground arith)
step-closed u now job fresh is_closed (o ∷ os) =
    elim (Bool-cases (
      job.is_reposted
      && not fresh
      && is_some o.closed_at
      && not is_closed
      && not (is_same_repost_occurrence u job o))) [
        | inl repost ↦
            rw repost (new_occurrence u now job is_closed true, o ∷ os, refl, ground arith)
        | inr other ↦ rw other (_, os, refl, ground arith)
      ]

-- Whatever was stored, after a write the posting is closed exactly when its latest occurrence is.
pub upsert-Agrees :
    (u : Rules) (now : Instant) (job : NormalizedJob) (r : Rows) → Agrees (upsert u now job r).1
unfolding upsert follow Agrees
upsert-Agrees u now job r =
    let prepared = prepared_on u job r in
    let p = written_posting u now prepared r.posting in
    let (o, os, e, c) = step-closed u now prepared (is_none r.posting) p.is_closed r.occurrences in
    (p, o, os, refl, e, c)

step-events :
    (u : Rules) (now : Instant) (job : NormalizedJob) (fresh is_closed : Bool)
    (os : List JobOccurrence)
    → let s = occurrence_step u now job fresh is_closed os in
      length s.new_events
      ≡ (if s.was_created then (if is_closed then 0 else 1) else if s.created_repost then 1 else 0)
unfolding occurrence_step
step-events u now job fresh is_closed [] = ground arith
step-events u now job fresh is_closed (o ∷ os) =
    elim (Bool-cases (
      job.is_reposted
      && not fresh
      && is_some o.closed_at
      && not is_closed
      && not (is_same_repost_occurrence u job o))) [
        | inl repost ↦ rw repost refl
        | inr other ↦ rw other refl
      ]

-- The events that a reported state stands for.
unfoldable pub announced : DeduplicationState → Bool → ℕ
announced DeduplicationState.new_role is_closed = if is_closed then 0 else 1
announced DeduplicationState.role_reposted is_closed = 1
announced _ is_closed = 0

announced-state :
    (created repost : Bool) (previous : Option Bool) (is_closed changed : Bool)
    → announced (state_for_persistence created repost previous is_closed changed) is_closed
      ≡ (if created then (if is_closed then 0 else 1) else if repost then 1 else 0)
unfolding announced state_for_persistence
announced-state true repost previous is_closed changed = refl
announced-state false true previous is_closed changed = refl
announced-state false false previous is_closed changed =
    elim (Bool-cases (previous == some false && is_closed)) [
      | inl shut ↦ rw shut refl
      | inr still ↦ elim (Bool-cases (previous == some true && not is_closed)) [
        | inl again ↦ rw (still, again) refl
        | inr same ↦ rw (still, same) (ground arith)
      ]
    ]

-- A write adds one discovery event where it reports a new open role or a repost, and none where it
-- reports anything else.
pub upsert_announces :
    (u : Rules) (now : Instant) (job : NormalizedJob) (r : Rows) (p : JobPosting)
    → (upsert u now job r).1.posting ≡ some p
    → length (upsert u now job r).1.events
      ≡ length r.events + announced (upsert u now job r).0 p.is_closed
unfolding upsert follow
upsert_announces u now job r p e =
    let prepared = prepared_on u job r in
    let q = written_posting u now prepared r.posting in
    let s = occurrence_step u now prepared (is_none r.posting) q.is_closed r.occurrences in
    omega (
      arith,
      length-append r.events s.new_events,
      step-events u now prepared (is_none r.posting) q.is_closed r.occurrences,
      announced-state s.was_created s.created_repost (was_closed r) q.is_closed
          (content_changed r.posting q),
      ap (λ (x : JobPosting). announced (upsert u now job r).0 x.is_closed) (some_inj.0 e),
    )
