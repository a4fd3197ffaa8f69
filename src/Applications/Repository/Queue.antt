-- ===== src/Applications/Repository/Queue.antt =====
-- The queue queries of app/db/repository.py and app/applications/queue.py. `ORDER BY` is an
-- insertion sort of the rows that the `WHERE` clause keeps.
use job_ping.Base.{
  Bool, Option, List, ltb, ◌∷◌, true, ◌||◌, if◌then◌else◌, some, ◌==◌, elem, ◌&&◌, [], leb, not,
  none, pure, raise, gets, keep, nat_eq, ◌>>=◌,
}
use job_ping.Applications.Models.{Instant, Status, Job, Attempt, ApplicationJob, status_eq}
use job_ping.Applications.Repository.Store.{
  Session, ensure_application_attempt, M, find_attempt, missing_row, find_job,
}

-- `ORDER BY created_at DESC, id DESC`: whether the first row comes before the second.
unfoldable pub is_newer : Job → Job → Bool
is_newer a b = ltb b.created_at a.created_at || a.created_at == b.created_at && leb b.id a.id

-- `ORDER BY updated_at ASC, id ASC`.
unfoldable pub is_older : Attempt → Attempt → Bool
is_older a b = ltb a.updated_at b.updated_at || a.updated_at == b.updated_at && leb a.id b.id

abbrev pub insert_by {ℓ} : {A : Type ℓ} → (A → A → Bool) → A → List A → List A
insert_by before x [] = x ∷ []
insert_by before x (y ∷ ys) =
    let rest = insert_by before x ys in if before x y then x ∷ y ∷ ys else y ∷ rest

abbrev pub sort_by {ℓ} : {A : Type ℓ} → (A → A → Bool) → List A → List A
sort_by before [] = []
sort_by before (x ∷ xs) = insert_by before x (sort_by before xs)

abbrev pub waits : Option Attempt → Bool
waits none = true
waits (some a) = elem a.status (Status.queued ∷ [])

-- The `WHERE` clause: an open posting with no attempt, or with a queued one.
unfoldable pub is_eligible : Session → Job → Bool
is_eligible s job = not job.is_closed && waits (find_attempt job.id s.attempts)

unfoldable pub eligible_jobs : Session → List Job
eligible_jobs s = sort_by is_newer (keep (is_eligible s) s.jobs)

-- `job.application_attempt or await self.ensure_application_attempt(job.id)`
unfoldable pub attempt_or_ensure : Instant → Job → Option Attempt → M Attempt
unfolding ensure_application_attempt
attempt_or_ensure now job none = ensure_application_attempt now job.id
attempt_or_ensure now job (some a) = pure a

unfoldable pub attempt_of : Instant → Job → M Attempt
unfolding attempt_or_ensure
attempt_of now job = do
  found ← gets (λ s. find_attempt job.id s.attempts)
  attempt_or_ensure now job found

abbrev pub next_of : Instant → List Job → M (Option Attempt)
next_of now [] = pure none
next_of now (job ∷ _) = do a ← attempt_of now job; pure (some a)

unfoldable pub get_next_application : Instant → M (Option Attempt)
unfolding attempt_of
get_next_application now = do jobs ← gets eligible_jobs; next_of now jobs

unfoldable pub attempts_of : Instant → List Job → M (List Attempt)
unfolding attempt_of
attempts_of now [] = pure []
attempts_of now (job ∷ jobs) = do
  a ← attempt_of now job
  rest ← attempts_of now jobs
  pure (a ∷ rest)

unfoldable pub list_application_queue : Instant → M (List Attempt)
unfolding attempts_of
list_application_queue now = do jobs ← gets eligible_jobs; attempts_of now jobs

unfoldable pub list_applications_by_status : Status → M (List Attempt)
list_applications_by_status status =
    gets (λ s. sort_by is_older (keep (λ a. a.status == status) s.attempts))

unfoldable pub list_verification_required : M (List Attempt)
list_verification_required =
    gets (λ s. sort_by is_older (keep (λ a. a.status == Status.needs_verification) s.attempts))

-- `ApplicationQueue._job`
abbrev pub job_of : Attempt → Option Job → M ApplicationJob
job_of a none = raise missing_row
job_of a (some job) = pure (record {
  job_id = job.id;
  company = job.company;
  title = job.title;
  location = job.location;
  apply_url = job.apply_url;
  description = job.description;
  status = a.status;
})

abbrev pub application_job : Option Attempt → M (Option ApplicationJob)
application_job none = pure none
application_job (some a) = do
  job ← gets (λ s. find_job a.job_id s.jobs)
  j ← job_of a job
  pure (some j)

-- `ApplicationQueue.next`
unfoldable pub next_job : Instant → M (Option ApplicationJob)
unfolding get_next_application
next_job now = do attempt ← get_next_application now; application_job attempt
