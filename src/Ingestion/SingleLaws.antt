-- ===== src/Ingestion/SingleLaws.antt =====
-- That app/db/repository.py save_job_posting_with_outcome and bulk_upsert_job_postings_with_outcomes write alike.
use job_ping.Base.{
  ◌≡◌, refl, sym, ap, ◌∙◌, Bool, true, false, Option, none, some, List, [], ◌∷◌, arith,
}
use job_ping.Ingestion.Models.{JobPosting, JobOccurrence, is_some, Instant, Rules, NormalizedJob}
use job_ping.Ingestion.SingleWrite.{
  save_step, lowered, assigned, saved_posting, first_step, later_step, save_follow,
  posting_was_closed, save_job_posting,
}
use job_ping.Ingestion.Posting.{earliest, updated, written_posting, inserted, effective_job}
use job_ping.Ingestion.Occurrences.{occurrence_step, was_closed, state_for_persistence}
use job_ping.Ingestion.Upsert.{is_none, follow, upsert, prepared_on, content_changed}
use job_ping.Ingestion.Store.{Rows}

-- The posting is closed exactly when its latest occurrence is, and where there is no posting there is no occurrence.
abbrev pub AreInStep : Option JobPosting → List JobOccurrence → Type 0
AreInStep none [] = Unit {0}
AreInStep none (o ∷ os) = false ≡ true
AreInStep (some p) [] = Unit {0}
AreInStep (some p) (o ∷ os) = p.is_closed ≡ is_some o.closed_at

same_step :
    (u : Rules) (now : Instant) (job : NormalizedJob) (old : Option JobPosting) (c : Bool)
    (os : List JobOccurrence)
    → AreInStep old os
    → save_step u now job old c os ≡ occurrence_step u now job (is_none old) c os
unfolding save_step first_step later_step occurrence_step is_none
same_step u now job none c [] h = ground arith
same_step u now job none c (o ∷ os) h = absurd (ground arith)
same_step u now job (some p) c [] h = ground arith
same_step u now job (some p) c (o ∷ os) h = ground arith

lowered-earliest : (a b : Option Instant) → lowered a b ≡ earliest a b
unfolding lowered earliest
lowered-earliest none none = refl
lowered-earliest none (some t) = refl
lowered-earliest (some a) none = refl
lowered-earliest (some a) (some t) = ground arith

assigned-updated : (old new : JobPosting) → assigned old new ≡ updated false old new
unfolding assigned updated
assigned-updated old new = rw (lowered-earliest old.posted_at new.posted_at) refl

same_posting :
    (u : Rules) (now : Instant) (job : NormalizedJob) (old : Option JobPosting)
    → job.is_reposted ≡ false
    → saved_posting u now job old ≡ written_posting u now job old
unfolding saved_posting written_posting
same_posting u now job none h = refl
same_posting u now job (some old) h =
    assigned-updated old (inserted now (effective_job u job (some old)))
    ∙ ap (λ (b : Bool). updated b old (inserted now (effective_job u job (some old)))) (sym h)

same_closed :
    (u : Rules) (now : Instant) (job : NormalizedJob) (old : Option JobPosting)
    → (saved_posting u now job old).is_closed ≡ (written_posting u now job old).is_closed
unfolding saved_posting written_posting assigned updated
same_closed u now job none = refl
same_closed u now job (some old) = refl

-- The write of one job leaves the occurrences, observations and events that the write of a batch leaves, and reports
-- what it reports, for a state that is in step; the step and the closure of the posting are given.
module _ (u : Rules) (now : Instant) (observed job : NormalizedJob) (p q : JobPosting) (r : Rows)
    (closed : p.is_closed ≡ q.is_closed)
    (same : save_step u now job r.posting q.is_closed r.occurrences
      ≡ occurrence_step u now job (is_none r.posting) q.is_closed r.occurrences) where
  follow_alike :
      let s = (save_follow u now observed job p r).1 in
      let b = (follow u now observed job q r).1 in
      (s.occurrences ≡ b.occurrences) × (s.observations ≡ b.observations) × (s.events ≡ b.events)
  unfolding save_follow follow
  follow_alike = rw (closed, same) (refl, refl, refl)

state_alike :
    (u : Rules) (now : Instant) (job : NormalizedJob) (r : Rows) (old : Option JobPosting)
    (os : List JobOccurrence) (c : Bool)
    → AreInStep old os
    → let step = occurrence_step u now job (is_none old) c os in
      state_for_persistence step.was_created step.created_repost
        (some (posting_was_closed old))
        c
        false
      ≡ state_for_persistence step.was_created step.created_repost
          (was_closed (record r { posting = old; occurrences = os }))
          c
          false
unfolding occurrence_step is_none posting_was_closed was_closed state_for_persistence
state_alike u now job r none [] c h = refl
state_alike u now job r none (o ∷ os) c h = absurd (ground arith)
state_alike u now job r (some p) [] c h = refl
state_alike u now job r (some p) (o ∷ os) c h = ground arith

-- For a stored state whose posting, if there is one, is closed exactly when its latest occurrence is, and which has no
-- occurrence without a posting, the write of one job leaves the occurrences, observations and events that the
-- write of a batch leaves; it leaves the same posting where the job is not taken for a repost, and reports the same
-- state where the content hash of the posting does not change.
pub save_agrees :
    (u : Rules) (now : Instant) (job : NormalizedJob) (r : Rows)
    → AreInStep r.posting r.occurrences
    → let s = save_job_posting u now job r in
      let b = upsert u now job r in
      let prepared = prepared_on u job r in
      (s.1.occurrences ≡ b.1.occurrences)
      × (s.1.observations ≡ b.1.observations)
      × (s.1.events ≡ b.1.events)
      × (s.1.log ≡ r.log)
      × (prepared.is_reposted ≡ false → s.1.posting ≡ b.1.posting)
      × (content_changed r.posting (written_posting u now prepared r.posting) ≡ false → s.0 ≡ b.0)
unfolding save_job_posting upsert save_follow follow
save_agrees u now job r h =
    let prepared = prepared_on u job r in
    let q = written_posting u now prepared r.posting in
    let closed = same_closed u now prepared r.posting in
    let same = same_step u now prepared r.posting q.is_closed r.occurrences h in
    let k =
      follow_alike u now job prepared (saved_posting u now prepared r.posting) q r closed same in
    (
      k.0,
      k.1,
      k.2,
      refl,
      λ n. ap some (same_posting u now prepared r.posting n),
      λ n.
          rw (closed, same, n) (state_alike u now prepared r r.posting r.occurrences q.is_closed h),
    )
