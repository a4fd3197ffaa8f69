-- ===== src/Ingestion/Classifier.antt =====
-- app/services/repost_classifier.py: what an observation means for the stored job.
use job_ping.Ingestion.Models.{
  Instant, Identity, same_identity, NormalizedJob, JobPosting, JobOccurrence, Rules, is_some,
  or_else,
}
use job_ping.Base.{
  Bool, true, false, not, ◌&&◌, ◌||◌, Option, none, some, List, [], ◌∷◌, keep, is_empty, ltb,
  if◌then◌else◌, ◌==◌, nat_eq, list_eq, Text, codes, elem,
}

pub data OccurrenceDecision : Type 0 where
  discover : OccurrenceDecision
  open_update : OccurrenceDecision
  close : OccurrenceDecision
  reopen : OccurrenceDecision
  repost : OccurrenceDecision
  ambiguous_reopen : OccurrenceDecision

-- The latest occurrence and the identities that its observations gave.
pub record OccurrenceEvidence : Type 0 where
  pub occurrence : JobOccurrence
  pub identities : List Identity

unfoldable pub candidate_identity : Rules → NormalizedJob → Option Identity
unfolding or_else
candidate_identity u job =
    or_else job.identity (u.posting_identity job.source job.source_id job.apply_url)

-- `identity in identities`
unfoldable pub has_identity : Identity → List Identity → Bool
unfolding same_identity
has_identity i [] = false
has_identity i (j ∷ js) = same_identity i j || has_identity i js

-- The identities of the incoming one's namespace.
unfoldable pub comparable_identities : Option Identity → List Identity → List Identity
comparable_identities none js = []
comparable_identities (some i) js = keep (λ j. j.namespace == i.namespace) js

unfoldable pub is_known : Option Identity → List Identity → Bool
is_known none js = false
is_known (some i) js = has_identity i js

-- Both dates are there and the first is later.
unfoldable pub is_later : Option Instant → Option Instant → Bool
is_later (some a) (some b) = ltb b a
is_later _ _ = false

-- `if candidate.posted_at is not None and occurrence.posted_at is not None` with a new identity.
unfoldable pub new_identity_reposts : Option Instant → Option Instant → Bool
new_identity_reposts (some a) (some b) = ltb b a
new_identity_reposts _ _ = true

-- app/services/source_identity.py trustworthy_posting_date_source, with _DIRECT_ATS_SOURCES.
unfoldable pub direct_ats_sources : List Text
direct_ats_sources =
    codes "greenhouse"
    ∷ codes "lever"
    ∷ codes "workday"
    ∷ codes "ashby"
    ∷ codes "amazon"
    ∷ codes "meta"
    ∷ []

unfoldable pub trustworthy_posting_date_source : Rules → Option Text → Bool
unfolding direct_ats_sources
trustworthy_posting_date_source u none = false
trustworthy_posting_date_source u (some source) = elem (u.folded_source source) direct_ats_sources

unfoldable pub date_and_url_repost : Rules → NormalizedJob → JobPosting → JobOccurrence → Bool
unfolding is_later or_else trustworthy_posting_date_source
date_and_url_repost u job existing o =
    trustworthy_posting_date_source u job.source
    && is_later job.posted_at (or_else o.posted_at existing.posted_at)
    && not (u.canonicalize job.apply_url == u.canonicalize o.apply_url)

unfoldable pub is_repost_candidate : Rules → NormalizedJob → JobPosting → OccurrenceEvidence → Bool
unfolding candidate_identity comparable_identities is_known new_identity_reposts date_and_url_repost
    is_some
is_repost_candidate u job existing evidence =
    let incoming = candidate_identity u job in
    let comparable = comparable_identities incoming evidence.identities in
    if not existing.is_closed || not (is_some evidence.occurrence.closed_at) || job.is_closed
    then false
    else if is_some incoming && not (is_empty evidence.identities)
    then (if is_empty comparable || is_known incoming comparable
        then false
        else new_identity_reposts job.posted_at evidence.occurrence.posted_at)
    else date_and_url_repost u job existing evidence.occurrence

-- The end of decide_occurrence: whether the identity is known, the occurrence closed, and the job a
-- repost.
unfoldable pub closed_decision : Bool → Bool → Bool → OccurrenceDecision
closed_decision known closed reposts =
    if known
    then (if closed then OccurrenceDecision.reopen else OccurrenceDecision.open_update)
    else if not closed
    then OccurrenceDecision.ambiguous_reopen
    else if reposts
    then OccurrenceDecision.repost
    else OccurrenceDecision.ambiguous_reopen

-- decide_occurrence from `if evidence is None` on: an open observation of a closed posting.
unfoldable pub decide_closed :
    Rules → NormalizedJob → JobPosting → Option OccurrenceEvidence → OccurrenceDecision
unfolding closed_decision is_repost_candidate
decide_closed u job existing none = OccurrenceDecision.ambiguous_reopen
decide_closed u job existing (some evidence) =
    let incoming = candidate_identity u job in
    closed_decision (is_known incoming (comparable_identities incoming evidence.identities))
      (is_some evidence.occurrence.closed_at) (is_repost_candidate u job existing evidence)

unfoldable pub decide_occurrence :
    Rules → NormalizedJob → Option JobPosting → Option OccurrenceEvidence → OccurrenceDecision
unfolding decide_closed
decide_occurrence u job none evidence = OccurrenceDecision.discover
decide_occurrence u job (some existing) evidence =
    if job.is_closed
    then (if not existing.is_closed
        then OccurrenceDecision.close
        else OccurrenceDecision.open_update)
    else if not existing.is_closed
    then OccurrenceDecision.open_update
    else decide_closed u job existing evidence

-- prepare_candidate where the reopening is ambiguous: the confirmed closed state.
unfoldable pub keep_closed : Rules → NormalizedJob → JobPosting → NormalizedJob
keep_closed u job existing = record job {
  apply_url = u.canonicalize existing.apply_url;
  content_hash =
      if is_empty existing.content_hash
      then u.content_hash job.base_hash (u.canonicalize existing.apply_url) existing.location true
      else existing.content_hash;
  location = existing.location;
  is_closed = true;
  is_reposted = false;
}

unfoldable pub prepare_candidate :
    Rules → NormalizedJob → OccurrenceDecision → Option JobPosting → NormalizedJob
unfolding keep_closed
prepare_candidate u job OccurrenceDecision.repost _ = record job { is_reposted = true }
prepare_candidate u job OccurrenceDecision.ambiguous_reopen (some existing) =
    keep_closed u job existing
prepare_candidate u job _ _ = record job { is_reposted = false }

unfoldable pub occurrence_identity : Rules → JobOccurrence → Option Identity
unfolding or_else
occurrence_identity u o = or_else o.identity (u.posting_identity o.source o.source_id o.apply_url)

unfoldable pub same_dates : Option Instant → Option Instant → Bool
same_dates (some a) (some b) = a == b
same_dates _ _ = false

unfoldable pub same_identities : Option Identity → Option Identity → Bool
same_identities (some i) (some j) = same_identity i j
same_identities _ _ = false

unfoldable pub is_same_repost_occurrence : Rules → NormalizedJob → JobOccurrence → Bool
unfolding occurrence_identity same_dates same_identities candidate_identity is_some
is_same_repost_occurrence u job o =
    if not o.is_repost
    then false
    else if is_some (candidate_identity u job) || is_some (occurrence_identity u o)
    then same_identities (candidate_identity u job) (occurrence_identity u o)
    else same_dates job.posted_at o.posted_at
      && u.canonicalize job.apply_url == u.canonicalize o.apply_url
