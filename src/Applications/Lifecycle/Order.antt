-- ===== src/Applications/Lifecycle/Order.antt =====
-- The queue of app/db/repository.py hands out the newest eligible posting.
use mathlib.Core.Path.{subst}
use mathlib.Core.List.{head?, Mem, mem-cons_self, mem-cons_of_mem}
use job_ping.Base.{
  ◌≡◌, refl, true, false, List, [], ◌∷◌, arith, All, inl, inr, some, >>=-eq-ok, keep, Bool-cases,
  ok, ◌≤◌, ◌<◌, ◌⊎◌, Option, none, All-keep, elem, nat_eq, All-imp, ◌∙◌, ◌++◌, ltb, nat_beq_iff,
}
use job_ping.Applications.Models.{Instant, Attempt, Job, Status-discrete, Status, status_eq}
use job_ping.Applications.Repository.Queue.{
  is_newer, sort_by, insert_by, get_next_application, is_eligible, next_of, attempt_of,
  eligible_jobs, list_application_queue, attempts_of, waits, attempt_or_ensure,
}
use job_ping.Applications.Repository.Store.{
  Session, find_attempt, ensure_application_attempt, get_job_by_id, get_application_attempt,
  new_attempt,
}
use job_ping.Applications.Repository.Rows.{find_attempt-append_new, find_attempt-job_id}

is_newer_total : (a b : Job) → is_newer a b ≡ false → is_newer b a ≡ true
unfolding is_newer
is_newer_total a b h = ground arith

is_newer_trans : (a b c : Job) → is_newer a b ≡ true → is_newer b c ≡ true → is_newer a c ≡ true
unfolding is_newer
is_newer_trans a b c h k = ground arith

is_newer_refl : (a : Job) → is_newer a a ≡ true
unfolding is_newer
is_newer_refl a = ground arith

All-trans :
    (x z : Job) (l : List Job)
    → is_newer x z ≡ true
    → All (λ y. is_newer z y ≡ true) l
    → All (λ y. is_newer x y ≡ true) l
All-trans x z [] h k = tt
All-trans x z (y ∷ l) h k = (is_newer_trans x z y h k.0, All-trans x z l h k.1)

sort_by_nil : (l : List Job) → sort_by is_newer l ≡ [] → l ≡ []
sort_by_nil [] h = refl
sort_by_nil (y ∷ l) h = absurd (go (sort_by is_newer l) h)
  where
    go : (m : List Job) → insert_by is_newer y m ≡ [] → ⊥
    go [] e = ground arith
    go (z ∷ m) e = ground arith

insert_by_nil :
    (y x : Job) (l r : List Job)
    → l ≡ []
    → y ∷ [] ≡ x ∷ r
    → (is_newer x y ≡ true) × All (λ z. is_newer x z ≡ true) l
insert_by_nil y x [] r e k = (ground (arith, is_newer_refl y), tt)
insert_by_nil y x (z ∷ l) r e k = absurd (ground arith)

insert_by_cons :
    (y z x : Job) (l m r : List Job)
    → All (λ w. is_newer z w ≡ true) l
    → insert_by is_newer y (z ∷ m) ≡ x ∷ r
    → (is_newer x y ≡ true) × All (λ w. is_newer x w ≡ true) l
insert_by_cons y z x l m r low k = elim (Bool-cases (is_newer y z)) [
  | inl h ↦ let e : x ≡ y = ground arith in rw e (is_newer_refl y, All-trans y z l h low)
  | inr h ↦ let e : x ≡ z = ground arith in rw e (is_newer_total y z h, low)
]

insert_by_head :
    (y x : Job) (l m r : List Job)
    → sort_by is_newer l ≡ m
    → ((n : List Job) (z : Job) → sort_by is_newer l ≡ z ∷ n → All (λ w. is_newer z w ≡ true) l)
    → insert_by is_newer y m ≡ x ∷ r
    → (is_newer x y ≡ true) × All (λ w. is_newer x w ≡ true) l
insert_by_head y x l [] r e ih k = insert_by_nil y x l r (sort_by_nil l e) k
insert_by_head y x l (z ∷ m) r e ih k = insert_by_cons y z x l m r (ih m z e) k

sort_by_head :
    (l r : List Job) (x : Job) → sort_by is_newer l ≡ x ∷ r → All (λ y. is_newer x y ≡ true) l
sort_by_head [] r x h = tt
sort_by_head (y ∷ l) r x h =
    insert_by_head y x l (sort_by is_newer l) r refl (λ n z e. sort_by_head l n z e) h

-- What every eligible posting satisfies also holds where the eligibility is a test.
All-kept :
    (s : Session) (x : Job) (l : List Job)
    → All (λ y. is_newer x y ≡ true) (keep (is_eligible s) l)
    → All (λ y. is_eligible s y ≡ true → is_newer x y ≡ true) l
All-kept s x [] h = tt
All-kept s x (y ∷ l) h = elim (Bool-cases (is_eligible s y)) [
  | inl e ↦ let k = rw e at h in (λ _. k.0, All-kept s x l k.1)
  | inr e ↦ (λ t. absurd (ground arith), All-kept s x l (rw e at h))
]

next_of-attempt_of :
    (now : Instant) (a : Attempt) (jobs : List Job) (s t : Session)
    → next_of now jobs s ≡ (ok (some a), t)
    → (job : Job) × (rest : List Job) × (jobs ≡ job ∷ rest) × (attempt_of now job s ≡ (ok a, t))
next_of-attempt_of now a [] s t h = absurd (ground arith)
next_of-attempt_of now a (job ∷ rest) s t h =
    let (b, t', first, last) = >>=-eq-ok (attempt_of now job) _ s t h in
    (job, rest, refl, ground arith)

keep_passes :
    (s : Session) (l : List Job) → All (λ j. is_eligible s j ≡ true) (keep (is_eligible s) l)
keep_passes s [] = tt
keep_passes s (x ∷ l) = ground (arith, keep_passes s l)

insert_by-All :
    (P : Job → Type 0) (x : Job) (l : List Job) → P x → All P l → All P (insert_by is_newer x l)
insert_by-All P x [] h k = (h, tt)
insert_by-All P x (y ∷ l) h k = ground (arith, insert_by-All P x l h)

sort_by-All : (P : Job → Type 0) (l : List Job) → All P l → All P (sort_by is_newer l)
sort_by-All P [] h = tt
sort_by-All P (x ∷ l) h = insert_by-All P x (sort_by is_newer l) h.0 (sort_by-All P l h.1)

eligible_head :
    (s : Session) (job : Job) (rest : List Job)
    → eligible_jobs s ≡ job ∷ rest
    → is_eligible s job ≡ true
unfolding eligible_jobs
eligible_head s job rest e =
    (subst (λ x. All (λ j. is_eligible s j ≡ true) x) e
      (sort_by-All (λ j. is_eligible s j ≡ true) (keep (is_eligible s) s.jobs)
        (keep_passes s s.jobs))).0

-- A posting that may be handed out: it is open, and has no attempt or a queued one.
pub record IsWaiting (s : Session) (job : Job) : Type 0 where
  pub is_open : job.is_closed ≡ false
  pub is_untouched :
      (find_attempt job.id s.attempts ≡ none)
      ⊎ ((b : Attempt) × (find_attempt job.id s.attempts ≡ some b) × (b.status ≡ Status.queued))

-- The second posting was created earlier, or then and has no greater id.
abbrev pub IsNoNewer : Job → Job → Type 0
IsNoNewer job j =
    (j.created_at < job.created_at) ⊎ ((j.created_at ≡ job.created_at) × (j.id ≤ job.id))

waits-cases :
    (o : Option Attempt)
    → waits o ≡ true
    → (o ≡ none) ⊎ ((b : Attempt) × (o ≡ some b) × (b.status ≡ Status.queued))
unfolding elem
waits-cases none h = inl refl
waits-cases (some b) h = inr (b, refl, ground (arith, status_eq.equals_iff b.status Status.queued))

eligible-IsWaiting : (s : Session) (job : Job) → is_eligible s job ≡ true → IsWaiting s job
unfolding is_eligible
eligible-IsWaiting s job h = record {
  is_open = ground arith;
  is_untouched = waits-cases (find_attempt job.id s.attempts) (ground arith);
}

IsWaiting-eligible : (s : Session) (job : Job) → IsWaiting s job → is_eligible s job ≡ true
unfolding is_eligible elem Status-discrete
IsWaiting-eligible s job w = elim w.is_untouched [
  | inl e ↦ rw (w.is_open, e) refl
  | inr (b, e, q) ↦ rw (w.is_open, e, q) refl
]

newer-IsNoNewer : (job j : Job) → is_newer job j ≡ true → IsNoNewer job j
unfolding is_newer
newer-IsNoNewer job j h = elim (Bool-cases (ltb j.created_at job.created_at)) [
  | inl t ↦ inl (ground arith)
  | inr t ↦ inr (ground arith, ground arith)
]

keep-Mem :
    (s : Session) (l : List Job)
    → All (λ j. Mem j s.jobs) l
    → All (λ j. Mem j s.jobs) (keep (is_eligible s) l)
keep-Mem s l h = All-keep (λ j. Mem j s.jobs) (is_eligible s) l h

All-Mem : (l : List Job) → All (λ j. Mem j l) l
All-Mem [] = tt
All-Mem (x ∷ l) = (
  mem-cons_self,
  All-imp (λ j. Mem j l) (λ j. Mem j (x ∷ l)) l (λ j m. mem-cons_of_mem x m) (All-Mem l),
)

new-handed :
    (now : Instant) (job : Job) (a : Attempt) (s t : Session)
    → ensure_application_attempt now job.id s ≡ (ok a, t)
    → find_attempt job.id s.attempts ≡ none
    → (a ≡ new_attempt s.next_attempt_id job.id now) × (t.attempts ≡ s.attempts ++ (a ∷ []))
unfolding ensure_application_attempt get_job_by_id get_application_attempt
new-handed now job a s t h e = ground arith

handed :
    (now : Instant) (job : Job) (o : Option Attempt) (a : Attempt) (s t : Session)
    → find_attempt job.id s.attempts ≡ o
    → attempt_or_ensure now job o s ≡ (ok a, t)
    → (o ≡ none) ⊎ ((b : Attempt) × (o ≡ some b) × (b.status ≡ Status.queued))
    → (a.job_id ≡ job.id) × (a.status ≡ Status.queued) × (find_attempt job.id t.attempts ≡ some a)
unfolding attempt_or_ensure
handed now job none a s t e h w =
    let (new, at) = new-handed now job a s t h e in
    let i : a.job_id ≡ job.id = ground (arith, new) in
    (
      i,
      ground (arith, new),
      rw at (
          find_attempt-append_new job.id a s.attempts e
          ∙ ground (arith, nat_beq_iff a.job_id job.id)),
    )
handed now job (some b) a s t e h w =
    let same : b ≡ a = ground arith in
    let unchanged : s ≡ t = ground arith in
    (ground (arith, find_attempt-job_id job.id s.attempts b e), ground arith, ground arith)

handed-out :
    (now : Instant) (job : Job) (a : Attempt) (s t : Session)
    → attempt_of now job s ≡ (ok a, t)
    → waits (find_attempt job.id s.attempts) ≡ true
    → (a.job_id ≡ job.id) × (a.status ≡ Status.queued) × (find_attempt job.id t.attempts ≡ some a)
unfolding attempt_of
handed-out now job a s t h w =
    handed now job (find_attempt job.id s.attempts) a s t refl h
      (waits-cases (find_attempt job.id s.attempts) w)

eligible-waits :
    (s : Session) (job : Job)
    → is_eligible s job ≡ true
    → waits (find_attempt job.id s.attempts) ≡ true
unfolding is_eligible
eligible-waits s job h = ground arith

member : (s : Session) (job : Job) (rest : List Job) → eligible_jobs s ≡ job ∷ rest → Mem job s.jobs
unfolding eligible_jobs
member s job rest e =
    (subst (λ x. All (λ j. Mem j s.jobs) x) e
      (sort_by-All (λ j. Mem j s.jobs) (keep (is_eligible s) s.jobs)
        (keep-Mem s s.jobs (All-Mem s.jobs)))).0

-- A poll that returns an attempt hands out the stored attempt, still queued, of a posting that is open and had no
-- attempt or a queued one; of all such postings none was created later, nor then with a greater id.
pub next_is_newest :
    (now : Instant) (a : Attempt) (s t : Session)
    → get_next_application now s ≡ (ok (some a), t)
    → (job : Job) × Mem job s.jobs
      × IsWaiting s job
      × All (λ j. IsWaiting s j → IsNoNewer job j) s.jobs
      × (a.job_id ≡ job.id)
      × (a.status ≡ Status.queued)
      × (find_attempt job.id t.attempts ≡ some a)
unfolding get_next_application
next_is_newest now a s t h =
    let (job, rest, e, first) = next_of-attempt_of now a (eligible_jobs s) s t h in
    let eligible = eligible_head s job rest e in
    let (i, q, f) = handed-out now job a s t first (eligible-waits s job eligible) in
    (
      job,
      member s job rest e,
      eligible-IsWaiting s job eligible,
      All-imp (λ j. is_eligible s j ≡ true → is_newer job j ≡ true)
          (λ j. IsWaiting s j → IsNoNewer job j) s.jobs
          (λ j newer w. newer-IsNoNewer job j (newer (IsWaiting-eligible s j w)))
          (All-kept s job s.jobs
            (sort_by_head (keep (is_eligible s) s.jobs) rest job (unfold eligible_jobs in e))),
      i,
      q,
      f,
    )

first_of_queue :
    (now : Instant) (jobs : List Job) (l : List Attempt) (s t : Session)
    → attempts_of now jobs s ≡ (ok l, t)
    → (next_of now jobs s).0 ≡ ok (head? l)
unfolding attempts_of
first_of_queue now [] l s t h = ground arith
first_of_queue now (job ∷ jobs) l s t h =
    let (a, s1, first, more) = >>=-eq-ok (attempt_of now job) _ s t h in
    let (r, s2, second, last) = >>=-eq-ok (attempts_of now jobs) _ s1 t more in ground arith

-- A poll hands out the first attempt of the queue's listing, and nothing when the listing is empty.
pub next-list :
    (now : Instant) (l : List Attempt) (s t : Session)
    → list_application_queue now s ≡ (ok l, t)
    → (get_next_application now s).0 ≡ ok (head? l)
unfolding list_application_queue get_next_application
next-list now l s t h = first_of_queue now (eligible_jobs s) l s t h
