-- ===== src/Notifications/Pending.antt =====
-- What app/notifications/worker.py match_events leaves of the tables: the discoveries that it draws are processed.
use job_ping.Base.{
  ◌≢◌, ℕ, ◌≤◌, ◌<◌, ◌≡◌, refl, ap, ◌∙◌, inl, inr, Bool, true, false, ◌&&◌, Option, none, some, List,
  [], ◌∷◌, arith, length, keep, find, any, All, All-imp, All-append, ◌==◌, nat_eq, nat_beq_iff,
  if◌then◌else◌, Bool-cases,
}
use job_ping.Notifications.Models.{Mailbox, DiscoveryEvent, Occurrence, Posting, Subscriber}
use job_ping.Notifications.Matching.{
  Discovery, joined, discoveries, match_user, add_alert, add_match, match_users, set_processed,
  mark_processed, match_each,
}
use job_ping.Notifications.MatchAll.{is_pending}

unfoldable pub pending_count : List DiscoveryEvent → ℕ
unfolding is_pending
pending_count es = length (keep is_pending es)

unfoldable pub has_pending : ℕ → List DiscoveryEvent → Bool
unfolding is_pending
has_pending id es = any (λ e. e.id == id && is_pending e) es

processed-le :
    (id : ℕ) (es : List DiscoveryEvent) → pending_count (set_processed id es) ≤ pending_count es
unfolding pending_count set_processed is_pending
processed-le id [] = omega arith
processed-le id (e ∷ es) = ground (arith, processed-le id es)

pub processed-lt :
    (id : ℕ) (es : List DiscoveryEvent)
    → has_pending id es ≡ true
    → pending_count (set_processed id es) < pending_count es
unfolding pending_count has_pending set_processed is_pending
processed-lt id [] h = absurd (ground arith)
processed-lt id (e ∷ es) h = ground (arith, processed-le id es, processed-lt id es)

-- What matching keeps of the tables: everything but the matches, the deliveries and the marks.
pub record Tables (m n : Mailbox) : Type 0 where
  pub occurrences : n.occurrences ≡ m.occurrences
  pub postings : n.postings ≡ m.postings
  pub subscribers : n.subscribers ≡ m.subscribers

match_user-Tables :
    (now : ℕ) (d : Discovery) (u : Subscriber) (m : Mailbox)
    → Tables m (match_user now d u m) × ((match_user now d u m).events ≡ m.events)
unfolding match_user add_alert add_match
match_user-Tables now d u m = (
  record { occurrences = ground arith; postings = ground arith; subscribers = ground arith },
  ground arith,
)

pub Tables-refl : (m : Mailbox) → Tables m m
Tables-refl m = record { occurrences = refl; postings = refl; subscribers = refl }

pub Tables-trans : (l m n : Mailbox) → Tables l m → Tables m n → Tables l n
Tables-trans l m n a b = record {
  occurrences = b.occurrences ∙ a.occurrences;
  postings = b.postings ∙ a.postings;
  subscribers = b.subscribers ∙ a.subscribers;
}

match_users-Tables :
    (now : ℕ) (d : Discovery) (us : List Subscriber) (m : Mailbox)
    → Tables m (match_users now d us m) × ((match_users now d us m).events ≡ m.events)
unfolding match_users
match_users-Tables now d [] m = (Tables-refl m, refl)
match_users-Tables now d (u ∷ us) m =
    let n = match_user now d u m in
    let (a, e) = match_user-Tables now d u m in
    let (b, f) = match_users-Tables now d us n in
    (Tables-trans m n (match_users now d us n) a b, f ∙ e)

-- Each of the discoveries is processed, one after the other.
unfoldable pub process_each : List Discovery → List DiscoveryEvent → List DiscoveryEvent
unfolding set_processed
process_each [] es = es
process_each (d ∷ ds) es = process_each ds (set_processed d.event.id es)

pub match_each-Tables :
    (now : ℕ) (us : List Subscriber) (ds : List Discovery) (m : Mailbox)
    → Tables m (match_each now us ds m)
      × ((match_each now us ds m).events ≡ process_each ds m.events)
unfolding match_each mark_processed process_each
match_each-Tables now us [] m = (Tables-refl m, refl)
match_each-Tables now us (d ∷ ds) m =
    let n = match_users now d us m in
    let (a, e) = match_users-Tables now d us m in
    let (b, f) = match_each-Tables now us ds (mark_processed d n) in
    (
      Tables-trans m n (match_each now us ds (mark_processed d n)) a (record {
        occurrences = b.occurrences;
        postings = b.postings;
        subscribers = b.subscribers;
      }),
      f ∙ ap (λ es. process_each ds (set_processed d.event.id es)) e,
    )

pub process_each-le :
    (ds : List Discovery) (es : List DiscoveryEvent)
    → pending_count (process_each ds es) ≤ pending_count es
unfolding process_each
process_each-le [] es = omega arith
process_each-le (d ∷ ds) es =
    omega (arith, processed-le d.event.id es, process_each-le ds (set_processed d.event.id es))

-- The occurrence and the job of a discovery are in their tables.
pub record IsJoined (os : List Occurrence) (js : List Posting) (e : DiscoveryEvent) : Type 0 where
  pub occurrence : Occurrence
  pub job : Posting
  pub has_occurrence : find (λ o. o.id == e.occurrence_id) os ≡ some occurrence
  pub has_job : find (λ j. j.id == e.job_id) js ≡ some job

set_processed-IsJoined :
    (os : List Occurrence) (js : List Posting) (id : ℕ) (es : List DiscoveryEvent)
    → All (IsJoined os js) es
    → All (IsJoined os js) (set_processed id es)
unfolding set_processed
set_processed-IsJoined os js id [] h = tt
set_processed-IsJoined os js id (e ∷ es) h = elim (Bool-cases (e.id == id)) [
  | inl t ↦ rw t (
    record {
      occurrence = h.0.occurrence;
      job = h.0.job;
      has_occurrence = h.0.has_occurrence;
      has_job = h.0.has_job;
    },
    set_processed-IsJoined os js id es h.1,
  )
  | inr t ↦ rw t (h.0, set_processed-IsJoined os js id es h.1)
]

pub process_each-IsJoined :
    (os : List Occurrence) (js : List Posting) (ds : List Discovery) (es : List DiscoveryEvent)
    → All (IsJoined os js) es
    → All (IsJoined os js) (process_each ds es)
unfolding process_each
process_each-IsJoined os js [] es h = h
process_each-IsJoined os js (d ∷ ds) es h =
    process_each-IsJoined os js ds (set_processed d.event.id es)
      (set_processed-IsJoined os js d.event.id es h)

-- What the query draws is pending.
joined-pending :
    (o : Option Occurrence) (j : Option Posting) (e : DiscoveryEvent) (es : List DiscoveryEvent)
    → e.processed ≡ false
    → All (λ (d : Discovery). has_pending d.event.id (e ∷ es) ≡ true) (joined o j e)
unfolding joined has_pending is_pending
joined-pending (some o) (some j) e es h = (ground (arith, nat_beq_iff e.id e.id), tt)
joined-pending (some o) none e es h = tt
joined-pending none j e es h = tt

unprocessed-pending :
    (b : Bool) (o : Option Occurrence) (j : Option Posting) (e : DiscoveryEvent)
    (es : List DiscoveryEvent)
    → e.processed ≡ b
    → All
        (λ (d : Discovery). has_pending d.event.id (e ∷ es) ≡ true)
        (if b then [] else joined o j e)
unprocessed-pending true o j e es h = tt
unprocessed-pending false o j e es h = joined-pending o j e es h

pub drawn-pending :
    (os : List Occurrence) (js : List Posting) (es : List DiscoveryEvent)
    → All (λ (d : Discovery). has_pending d.event.id es ≡ true) (discoveries os js es)
unfolding discoveries has_pending
drawn-pending os js [] = tt
drawn-pending os js (e ∷ es) =
    All-append (λ (d : Discovery). has_pending d.event.id (e ∷ es) ≡ true)
      (if e.processed
        then []
        else joined (find (λ o. o.id == e.occurrence_id) os) (find (λ j. j.id == e.job_id) js) e)
      (discoveries os js es)
      (unprocessed-pending e.processed (find (λ o. o.id == e.occurrence_id) os)
        (find (λ j. j.id == e.job_id) js) e es refl)
      (All-imp (λ (d : Discovery). has_pending d.event.id es ≡ true)
        (λ (d : Discovery). has_pending d.event.id (e ∷ es) ≡ true) (discoveries os js es)
        (λ d h. ground arith) (drawn-pending os js es))

cons-nil : {A : Type 0} {x : A} {xs : List A} → ¬ ((x ∷ xs) ≡ [])
cons-nil h = ground arith

-- A pending discovery is drawn.
pub some-drawn :
    (os : List Occurrence) (js : List Posting) (es : List DiscoveryEvent)
    → All (IsJoined os js) es
    → any is_pending es ≡ true
    → discoveries os js es ≢ []
unfolding discoveries is_pending joined
some-drawn os js [] h k e = ground arith
some-drawn os js (e ∷ es) h k t = elim (Bool-cases e.processed) [
  | inl p ↦ some-drawn os js es h.1 (ground arith) (rw p at t)
  | inr p ↦ cons-nil (rw (p, h.0.has_occurrence, h.0.has_job) at t)
]
