-- ===== src/Notifications/MatchEnds.antt =====
-- That the loop of app/notifications/api.py put_settings ends. Each discovery has its occurrence and its job, by the
-- foreign keys.
use job_ping.Base.{
  ◌≢◌, ℕ, zero, suc, ◌≤◌, ◌<◌, ◌≡◌, refl, ap, ◌∙◌, inl, inr, Bool, true, false, List, [], ◌∷◌,
  arith, length, length-keep-le, keep, any, All, All-order, All-take, take, order_by, place_by,
  nat_eq, if◌then◌else◌, Bool-cases,
}
use job_ping.Notifications.Models.{Mailbox, DiscoveryEvent}
use job_ping.Notifications.Matching.{
  Discovery, joined, discoveries, discovered_first, backlog, is_recipient, set_processed,
  match_events,
}
use job_ping.Notifications.MatchAll.{is_pending, match_all, match_backlog}
use job_ping.Notifications.Pending.{
  pending_count, has_pending, processed-lt, Tables, Tables-refl, Tables-trans, match_each-Tables,
  process_each, process_each-le, IsJoined, process_each-IsJoined, drawn-pending, some-drawn,
}

place-cons :
    {A : Type 0} (le : A → A → Bool) (x : A) (xs : List A)
    → (y : A) × (ys : List A) × (place_by le x xs ≡ y ∷ ys)
unfolding place_by
place-cons le x [] = (x, [], refl)
place-cons le x (y ∷ ys) = elim (Bool-cases (le x y)) [
  | inl t ↦ rw t (x, y ∷ ys, refl)
  | inr t ↦ rw t (y, place_by le x ys, refl)
]

order-cons :
    {A : Type 0} (le : A → A → Bool) (xs : List A)
    → xs ≢ []
    → (y : A) × (ys : List A) × (order_by le xs ≡ y ∷ ys)
unfolding order_by
order-cons le [] h = absurd (h refl)
order-cons le (x ∷ xs) h = place-cons le x (order_by le xs)

backlog-cons :
    (m : Mailbox)
    → All (IsJoined m.occurrences m.postings) m.events
    → any is_pending m.events ≡ true
    → (d : Discovery) × (ds : List Discovery) × (backlog m ≡ d ∷ ds)
unfolding backlog take
backlog-cons m h k =
    let (d, ds, e) =
      order-cons discovered_first (discoveries m.occurrences m.postings m.events)
        (some-drawn m.occurrences m.postings m.events h k) in
    (d, take 499 ds, rw e refl)

backlog-pending :
    (m : Mailbox) → All (λ (d : Discovery). has_pending d.event.id m.events ≡ true) (backlog m)
unfolding backlog
backlog-pending m =
    let P = λ (d : Discovery). has_pending d.event.id m.events ≡ true in
    let ds = discoveries m.occurrences m.postings m.events in
    All-take P 500 (order_by discovered_first ds)
      (All-order P discovered_first ds (drawn-pending m.occurrences m.postings m.events))

process-lt :
    (ds : List Discovery) (es : List DiscoveryEvent) (d : Discovery) (rest : List Discovery)
    → ds ≡ d ∷ rest
    → All (λ (d : Discovery). has_pending d.event.id es ≡ true) ds
    → pending_count (process_each ds es) < pending_count es
unfolding process_each
process-lt [] es d rest e h = absurd (ground arith)
process-lt (x ∷ ds) es d rest e h =
    omega (arith, processed-lt x.event.id es h.0, process_each-le ds (set_processed x.event.id es))

-- A round of the loop processes a discovery, and leaves the tables.
match_round :
    (now : ℕ) (m : Mailbox)
    → All (IsJoined m.occurrences m.postings) m.events
    → any is_pending m.events ≡ true
    → (pending_count (match_events now m).events < pending_count m.events)
      × Tables m (match_events now m)
      × All
          (IsJoined (match_events now m).occurrences (match_events now m).postings)
          (match_events now m).events
unfolding match_events
match_round now m h k =
    let us = keep is_recipient m.subscribers in
    let (a, e) = match_each-Tables now us (backlog m) m in
    let (d, ds, b) = backlog-cons m h k in
    (
      rw e (process-lt (backlog m) m.events d ds b (backlog-pending m)),
      a,
      rw (e, a.occurrences, a.postings)
          (process_each-IsJoined m.occurrences m.postings (backlog m) m.events h),
    )

same_subscribers : (now : ℕ) (m : Mailbox) → (match_events now m).subscribers ≡ m.subscribers
unfolding match_events
same_subscribers now m =
    (match_each-Tables now (keep is_recipient m.subscribers) (backlog m) m).0.subscribers

none-pending : (es : List DiscoveryEvent) → pending_count es ≤ 0 → any is_pending es ≡ false
unfolding pending_count is_pending
none-pending [] h = refl
none-pending (e ∷ es) h = ground (arith, none-pending es)

match_all-step :
    (n now : ℕ) (m : Mailbox) (b : Bool)
    → any is_pending m.events ≡ b
    → match_all (suc n) now m ≡ (if b then match_all n now (match_events now m) else m)
unfolding match_all is_pending
match_all-step n now m b h = rw h refl

match_all-zero : (now : ℕ) (m : Mailbox) → match_all zero now m ≡ m
unfolding match_all
match_all-zero now m = refl

match_all-ends :
    (n now : ℕ) (m : Mailbox)
    → All (IsJoined m.occurrences m.postings) m.events
    → pending_count m.events ≤ n
    → (any is_pending (match_all n now m).events ≡ false) × Tables m (match_all n now m)
match_all-ends zero now m h k = rw (match_all-zero now m) (none-pending m.events k, Tables-refl m)
match_all-ends (suc n) now m h k = elim (Bool-cases (any is_pending m.events)) [
  | inl t ↦
      let (less, a, joined) = match_round now m h t in
      let (done, b) = match_all-ends n now (match_events now m) joined (omega (arith, less)) in
      rw (match_all-step n now m true t)
        (done, Tables-trans m (match_events now m) (match_all n now (match_events now m)) a b)
  | inr t ↦ rw (match_all-step n now m false t) (t, Tables-refl m)
]

match_all-subscribers : (n now : ℕ) (m : Mailbox) → (match_all n now m).subscribers ≡ m.subscribers
match_all-subscribers zero now m = ap (λ (x : Mailbox). x.subscribers) (match_all-zero now m)
match_all-subscribers (suc n) now m = elim (Bool-cases (any is_pending m.events)) [
  | inl t ↦
      rw (match_all-step n now m true t)
        (match_all-subscribers n now (match_events now m) ∙ same_subscribers now m)
  | inr t ↦ rw (match_all-step n now m false t) refl
]

pub match_backlog-subscribers :
    (now : ℕ) (m : Mailbox) → (match_backlog now m).subscribers ≡ m.subscribers
unfolding match_backlog
match_backlog-subscribers now m = match_all-subscribers (length m.events) now m

pending-le : (es : List DiscoveryEvent) → pending_count es ≤ length es
unfolding pending_count
pending-le es = length-keep-le is_pending es

-- Where every discovery has its occurrence and its job, the loop ends with every discovery processed, and leaves the
-- occurrences, the jobs and the subscribers as they are.
pub matching_ends :
    (now : ℕ) (m : Mailbox)
    → All (IsJoined m.occurrences m.postings) m.events
    → (any is_pending (match_backlog now m).events ≡ false)
      × ((match_backlog now m).occurrences ≡ m.occurrences)
      × ((match_backlog now m).postings ≡ m.postings)
      × ((match_backlog now m).subscribers ≡ m.subscribers)
unfolding match_backlog
matching_ends now m h =
    let (done, t) = match_all-ends (length m.events) now m h (pending-le m.events) in
    (done, t.occurrences, t.postings, t.subscribers)
