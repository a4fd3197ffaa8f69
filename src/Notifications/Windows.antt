-- ===== src/Notifications/Windows.antt =====
-- How app/notifications/worker.py make_recaps moves the windows of the subscribers.
use job_ping.Base.{
  ℕ, ◌<◌, ◌≡◌, refl, true, Option, none, some, List, [], ◌∷◌, map, arith, All, nat_beq_iff, elem,
  nat_eq, ◌≤◌, sym, inl, inr, false, not, keep, Text, Bool-cases, Option-cases, any,
}
use job_ping.Notifications.Recaps.{
  put_recap, map_some, recap_window, set_window, add_recap, without_alerts, moved_on, is_recap_due,
  fold_into, folded_ids, open_recap, jobs_of, recap_from, recap_users, make_recaps, window_matches,
}
use job_ping.Notifications.Models.{Subscriber, JobMatch, EmailDelivery, Mailbox, DiscoveryEvent}
use job_ping.Notifications.Cutoff.{Zone, next_cutoff, Evenings, last_cutoff, catch_up_ends}
use mathlib.Core.Path.{subst}

put_recap-subscribers :
    (user start end_at now : ℕ) (ks : List JobMatch) (o : Option EmailDelivery) (m n : Mailbox)
    → put_recap user start end_at now ks o m ≡ some n
    → n.subscribers ≡ m.subscribers
unfolding put_recap add_recap
put_recap-subscribers user start end_at now ks none m n h = ground arith
put_recap-subscribers user start end_at now ks (some item) m n h =
    go (jobs_of m.occurrences (folded_ids item ks)) h
  where
    go :
        (js : Option (List ℕ))
        → fold_into end_at now item (folded_ids item ks) js m ≡ some n
        → n.subscribers ≡ m.subscribers
    go none k = absurd (ground arith)
    go (some js) k = ground arith

moved-subscribers :
    (user end_at next : ℕ) (ks : List JobMatch) (o : Option Mailbox) (m n : Mailbox)
    → ((p : Mailbox) → o ≡ some p → p.subscribers ≡ m.subscribers)
    → map_some (λ p. without_alerts user ks (moved_on user end_at next p)) o ≡ some n
    → n.subscribers ≡ set_window user end_at next m.subscribers
unfolding map_some without_alerts moved_on
moved-subscribers user end_at next ks none m n f h = absurd (ground arith)
moved-subscribers user end_at next ks (some p) m n f h = ground (arith, f p refl)

-- The loop's body changes the subscribers only by moving the window to its end.
pub recap_window-subscribers :
    (zone : Zone) (now user start end_at : ℕ) (ks : List JobMatch) (m n : Mailbox)
    → recap_window zone now user start end_at ks m ≡ some n
    → n.subscribers ≡ set_window user end_at (next_cutoff zone end_at) m.subscribers
unfolding recap_window moved_on
recap_window-subscribers zone now user start end_at [] m n h = ground arith
recap_window-subscribers zone now user start end_at (k ∷ ks) m n h =
    moved-subscribers user end_at (next_cutoff zone end_at) (k ∷ ks)
      (put_recap user start end_at now (k ∷ ks) (open_recap user m.deliveries) m) m n
      (put_recap-subscribers user start end_at now (k ∷ ks) (open_recap user m.deliveries) m) h

-- The subscribers that are due are among these.
abbrev pub DueAmong : ℕ → List Subscriber → List Subscriber → Type 0
DueAmong now us vs =
    All (λ (v : Subscriber). is_recap_due now v ≡ true → elem v.id (map (λ u. u.id) us) ≡ true) vs

moved-DueAmong :
    (now end_at next : ℕ) (u : Subscriber) (us vs : List Subscriber)
    → now < next
    → DueAmong now (u ∷ us) vs
    → DueAmong now us (set_window u.id end_at next vs)
unfolding set_window is_recap_due elem
moved-DueAmong now end_at next u us [] l h = tt
moved-DueAmong now end_at next u us (v ∷ vs) l h = (
  ground (arith, h.0, nat_beq_iff u.id v.id, nat_beq_iff v.id u.id),
  moved-DueAmong now end_at next u us vs l h.1,
)

due-next :
    (now : ℕ) (u : Subscriber)
    → is_recap_due now u ≡ true
    → (t : ℕ) × (u.next_recap ≡ some t) × (t ≤ now)
unfolding is_recap_due
due-next now u h = elim (Option-cases u.next_recap) [
  | inl e ↦ absurd (ground (arith, e))
  | inr (t, e) ↦ (t, e, ground (arith, e))
]

recap_from-moves :
    (zone : Zone) (w : Evenings zone) (now user t : ℕ) (start : Option ℕ) (m n : Mailbox)
    → t ≤ now
    → recap_from zone now user start (some t) m ≡ some n
    → n.subscribers
      ≡ set_window user
          (last_cutoff zone now t)
          (next_cutoff zone (last_cutoff zone now t))
          m.subscribers
unfolding recap_from
recap_from-moves zone w now user t none m n l h = absurd (ground arith)
recap_from-moves zone w now user t (some s) m n l h =
    recap_window-subscribers zone now user s (last_cutoff zone now t)
      (window_matches user s (last_cutoff zone now t) m.matches) m n h

recap_user-DueAmong :
    (zone : Zone) (w : Evenings zone) (now : ℕ) (u : Subscriber) (us : List Subscriber)
    (m n : Mailbox)
    → is_recap_due now u ≡ true
    → recap_from zone now u.id u.window_start u.next_recap m ≡ some n
    → DueAmong now (u ∷ us) m.subscribers
    → DueAmong now us n.subscribers
recap_user-DueAmong zone w now u us m n d h k =
    let (t, e, l) = due-next now u d in
    let end_at = last_cutoff zone now t in
    let moved =
      recap_from-moves zone w now u.id t u.window_start m n l
        (subst (λ (o : Option ℕ). recap_from zone now u.id u.window_start o m ≡ some n) e h) in
    subst (DueAmong now us) (sym moved) (
      moved-DueAmong now end_at (next_cutoff zone end_at) u us m.subscribers
        (catch_up_ends w now t l).2 k)

recap_users-settle :
    (zones : Text → Zone) (w : (name : Text) → Evenings (zones name)) (now : ℕ)
    (us : List Subscriber) (m n : Mailbox)
    → All (λ (u : Subscriber). is_recap_due now u ≡ true) us
    → recap_users zones now us m ≡ some n
    → DueAmong now us m.subscribers
    → DueAmong now [] n.subscribers
unfolding recap_users
recap_users-settle zones w now [] m n a h k = ground arith
recap_users-settle zones w now (u ∷ us) m n a h k =
    go (recap_users-settle zones w now us)
      (recap_from (zones u.timezone) now u.id u.window_start u.next_recap m) refl h
  where
    go :
        ((p q : Mailbox)
          → All (λ (v : Subscriber). is_recap_due now v ≡ true) us
          → recap_users zones now us p ≡ some q
          → DueAmong now us p.subscribers
          → DueAmong now [] q.subscribers)
        → (o : Option Mailbox)
        → recap_from (zones u.timezone) now u.id u.window_start u.next_recap m ≡ o
        → (elim o as (λ _. Option Mailbox) [ none ↦ none | some p ↦ recap_users zones now us p ])
          ≡ some n
        → DueAmong now [] n.subscribers
    go ih none e f = absurd (ground arith)
    go ih (some p) e f =
        ih p n a.1 f (recap_user-DueAmong (zones u.timezone) (w u.timezone) now u us m p a.0 e k)

All-due :
    (now : ℕ) (vs : List Subscriber)
    → All (λ (u : Subscriber). is_recap_due now u ≡ true) (keep (is_recap_due now) vs)
All-due now [] = tt
All-due now (v ∷ vs) = ground (arith, All-due now vs)

due_by :
    (now : ℕ) (v : Subscriber) (us vs : List Subscriber)
    → DueAmong now us vs
    → DueAmong now (v ∷ us) vs
unfolding elem
due_by now v us [] h = tt
due_by now v us (x ∷ vs) h = (ground (arith, h.0), due_by now v us vs h.1)

DueAmong-keep : (now : ℕ) (vs : List Subscriber) → DueAmong now (keep (is_recap_due now) vs) vs
unfolding elem
DueAmong-keep now [] = tt
DueAmong-keep now (v ∷ vs) = elim (Bool-cases (is_recap_due now v)) [
  | inl e ↦
      let kept : keep (is_recap_due now) (v ∷ vs) ≡ v ∷ keep (is_recap_due now) vs = ground arith in
      subst (λ (us : List Subscriber). DueAmong now us (v ∷ vs)) (sym kept)
        (
          λ h. ground (arith, nat_beq_iff v.id v.id),
          due_by now v (keep (is_recap_due now) vs) vs (DueAmong-keep now vs),
        )
  | inr e ↦
      let kept : keep (is_recap_due now) (v ∷ vs) ≡ keep (is_recap_due now) vs = ground arith in
      subst (λ (us : List Subscriber). DueAmong now us (v ∷ vs)) (sym kept)
        (λ h. ground arith, DueAmong-keep now vs)
]

none_due :
    (now : ℕ) (vs : List Subscriber)
    → DueAmong now [] vs
    → All (λ (u : Subscriber). is_recap_due now u ≡ false) vs
unfolding elem
none_due now [] h = tt
none_due now (v ∷ vs) h = (ground (arith, h.0), none_due now vs h.1)

-- Where every discovery is processed and make_recaps returns, no recap is due any more: each window that
-- was due has moved, by however many days, to a next recap later than now.
pub make_recaps_settles :
    (zones : Text → Zone) (w : (name : Text) → Evenings (zones name)) (now : ℕ) (m n : Mailbox)
    → any (λ (e : DiscoveryEvent). not e.processed) m.events ≡ false
    → make_recaps zones now m ≡ some n
    → All (λ (u : Subscriber). is_recap_due now u ≡ false) n.subscribers
unfolding make_recaps
make_recaps_settles zones w now m n e h = none_due now n.subscribers (
    recap_users-settle zones w now (keep (is_recap_due now) m.subscribers) m n
      (All-due now m.subscribers) (ground arith) (DueAmong-keep now m.subscribers))
