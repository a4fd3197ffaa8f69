-- ===== src/Applications/Lifecycle/Reach.antt =====
-- The sessions that a running service reaches: app/applications/service.py and
-- app/applications/queue.py, between which the ingestion may change the postings.
use mathlib.Core.Path.{subst}
use job_ping.Base.{ℕ, ◌≡◌, Option, none, some, List, [], ◌∷◌, sym, ◌⊎◌, inl, inr, arith}
use job_ping.Applications.Models.{Instant, Status, Attempt, Job}
use job_ping.Applications.Secrets.Codes.{Unicode}
use job_ping.Applications.Repository.Answers.{NewAnswer, save_application_answer}
use job_ping.Applications.Lifecycle.Sessions.{
  Evolves, Evolves-bind, Evolves-pure, Evolves-ensure, Evolves-get_attempt, Evolves-gets,
  Evolves-start, Evolves-transition,
}
use job_ping.Applications.Service.{
  get_checkpoint, perform, checkpoint_or_new, Call, mark_verification_required,
  mark_verification_complete, mark_needs_review, mark_ready_to_submit, update_checkpoint,
  mark_submitted, mark_failed,
}
use job_ping.Applications.Repository.Queue.{
  attempt_of, attempts_of, get_next_application, list_application_queue, attempt_or_ensure, next_of,
}
use job_ping.Applications.Repository.Store.{Session, ensure_application_attempt}
use job_ping.Applications.Lifecycle.History.{History, History-refl, History-trans}
use job_ping.Applications.Lifecycle.Calls.{ensure_History, checkpoint_History, reset_History}

answer_rows :
    (u : Unicode) (now : Instant) (job_id : ℕ) (n : NewAnswer) (s : Session)
    → let t = (save_application_answer u now job_id n s).1 in
      (t.attempts ≡ s.attempts)
      ⊎ (t.attempts ≡ (ensure_application_attempt now job_id s).1.attempts)
unfolding save_application_answer
answer_rows u now job_id n s = ground arith

module _ {u : Unicode} where
  Evolves-answer :
      (now : Instant) (job_id : ℕ) (n : NewAnswer)
      → Evolves u (save_application_answer u now job_id n)
  Evolves-answer now job_id n = record {
    rows = λ s. elim (answer_rows u now job_id n s) [
      | inl e ↦ subst (λ x. History u s.attempts x) (sym e) (History-refl s.attempts)
      | inr e ↦ subst (λ x. History u s.attempts x) (sym e) (ensure_History u now job_id s)
    ];
  }

  Evolves-checkpoint_or_new :
      (now : Instant) (job_id : ℕ) (o : Option Attempt)
      → Evolves u (checkpoint_or_new u now job_id o)
  Evolves-checkpoint_or_new now job_id (some a) = Evolves-pure _
  Evolves-checkpoint_or_new now job_id none =
      Evolves-bind _ _ (Evolves-ensure now job_id) λ a. Evolves-pure _

  Evolves-get_checkpoint : (now : Instant) (job_id : ℕ) → Evolves u (get_checkpoint u now job_id)
  unfolding get_checkpoint
  Evolves-get_checkpoint now job_id =
      Evolves-bind _ _ (Evolves-get_attempt job_id) (Evolves-checkpoint_or_new now job_id)

  Evolves-attempt_of : (now : Instant) (job : Job) → Evolves u (attempt_of now job)
  unfolding attempt_of
  Evolves-attempt_of now job = Evolves-bind _ _ (Evolves-gets _) (go now job)
    where
      go :
          (now : Instant) (job : Job) (o : Option Attempt) → Evolves u (attempt_or_ensure now job o)
      go now job none = Evolves-ensure now job.id
      go now job (some a) = Evolves-pure a

  Evolves-attempts_of : (now : Instant) (jobs : List Job) → Evolves u (attempts_of now jobs)
  unfolding attempts_of
  Evolves-attempts_of now [] = Evolves-pure _
  Evolves-attempts_of now (job ∷ jobs) =
      Evolves-bind _ _ (Evolves-attempt_of now job)
        λ a. Evolves-bind _ _ (Evolves-attempts_of now jobs) λ rest. Evolves-pure _

  Evolves-next_of : (now : Instant) (jobs : List Job) → Evolves u (next_of now jobs)
  Evolves-next_of now [] = Evolves-pure _
  Evolves-next_of now (job ∷ jobs) =
      Evolves-bind _ _ (Evolves-attempt_of now job) λ a. Evolves-pure _

  Evolves-next : (now : Instant) → Evolves u (get_next_application now)
  unfolding get_next_application
  Evolves-next now = Evolves-bind _ _ (Evolves-gets _) (Evolves-next_of now)

  Evolves-queue : (now : Instant) → Evolves u (list_application_queue now)
  unfolding list_application_queue
  Evolves-queue now = Evolves-bind _ _ (Evolves-gets _) (Evolves-attempts_of now)

  perform-History :
      (now : Instant) (job_id : ℕ) (c : Call) (s : Session)
      → History u s.attempts (perform u now job_id c s).attempts
  unfolding perform
  perform-History now job_id (Call.start url) s = (Evolves-start now job_id url).rows s
  perform-History now job_id (Call.verification_required kind url text) s =
      unfold mark_verification_required in
      (Evolves-transition now job_id Status.needs_verification _).rows s
  perform-History now job_id (Call.verification_complete url) s =
      unfold mark_verification_complete in
      (Evolves-transition now job_id Status.in_progress _).rows s
  perform-History now job_id (Call.needs_review url question reason) s =
      unfold mark_needs_review in (Evolves-transition now job_id Status.needs_review _).rows s
  perform-History now job_id (Call.ready_to_submit url) s =
      unfold mark_ready_to_submit in (Evolves-transition now job_id Status.ready_to_submit _).rows s
  perform-History now job_id (Call.checkpoint url stage) s =
      unfold update_checkpoint in checkpoint_History u now job_id url stage s
  perform-History now job_id (Call.submitted url) s =
      unfold mark_submitted in (Evolves-transition now job_id Status.submitted _).rows s
  perform-History now job_id (Call.failed code message url) s =
      unfold mark_failed in (Evolves-transition now job_id Status.failed _).rows s
  perform-History now job_id (Call.answer n) s = (Evolves-answer now job_id n).rows s
  perform-History now job_id Call.status s = (Evolves-get_checkpoint now job_id).rows s
  perform-History now job_id Call.reset s = reset_History u now job_id s

-- Calls of the service, polls of the queue, and any change of the postings.
pub data Reach (u : Unicode) (s : Session) : Session → Type 0 where
  begin : Reach u s s
  called :
      {t : Session} (now : Instant) (job_id : ℕ) (c : Call)
      → Reach u s t
      → Reach u s (perform u now job_id c t)
  polled : {t : Session} (now : Instant) → Reach u s t → Reach u s (get_next_application now t).1
  listed : {t : Session} (now : Instant) → Reach u s t → Reach u s (list_application_queue now t).1
  ingested : {t : Session} (jobs : List Job) → Reach u s t → Reach u s (record t { jobs = jobs })

module _ {u : Unicode} where
  -- Along any run of the service the attempts only evolve: each keeps its place and moves by allowed
  -- changes, none is removed, and a new one starts queued.
  pub Reach-History : {s t : Session} → Reach u s t → History u s.attempts t.attempts
  Reach-History {s} begin = History-refl s.attempts
  Reach-History (called {t} now job_id c r) =
      History-trans (Reach-History r) (perform-History now job_id c t)
  Reach-History (polled {t} now r) = History-trans (Reach-History r) ((Evolves-next now).rows t)
  Reach-History (listed {t} now r) = History-trans (Reach-History r) ((Evolves-queue now).rows t)
  Reach-History (ingested jobs r) = Reach-History r
