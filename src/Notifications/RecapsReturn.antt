-- ===== src/Notifications/RecapsReturn.antt =====
-- That app/notifications/worker.py make_recaps returns: each occurrence that it looks up is there.
use job_ping.Base.{
  ℕ, ◌≡◌, refl, inl, inr, true, not, Option, none, some, List, [], ◌∷◌, map, arith, keep, All,
  All-keep, Bool-cases, ◌==◌, nat_eq, any, All-order, sym, Text,
}
use job_ping.Notifications.Models.{Occurrence, Mailbox, JobMatch, Subscriber, DiscoveryEvent}
use job_ping.Notifications.Recaps.{
  open_recap, put_recap, map_some, recap_window, window_matches, recap_from, recap_users,
  make_recaps, without_alerts, moved_on, matched_first, is_recap_due, in_window,
}
use mathlib.Core.Path.{subst}
use job_ping.Notifications.Cutoff.{Zone, next_cutoff, last_cutoff}
use job_ping.Notifications.Resolved.{Returns, Resolved, fold_alerts-known, put_recap-Returns}

after-Returns :
    (user end_at next : ℕ) (ks : List JobMatch) (o : Option Mailbox)
    → Returns o
    → Returns (map_some (λ p. without_alerts user ks (moved_on user end_at next p)) o)
unfolding map_some without_alerts moved_on
after-Returns user end_at next ks none (n, e, w) = absurd (ground arith)
after-Returns user end_at next ks (some p) (n, e, w) =
    let same : p ≡ n = ground arith in
    let v : Resolved p = subst Resolved (sym same) w in
    (
      without_alerts user ks (moved_on user end_at next p),
      refl,
      record {
        of_matches = v.of_matches;
        of_deliveries =
            fold_alerts-known p.occurrences user (map (λ k. k.occurrence_id) ks) p.deliveries
              v.of_deliveries;
      },
    )

recap_window-Returns :
    (zone : Zone) (now user start end_at : ℕ) (ks : List JobMatch) (m : Mailbox)
    → Resolved m
    → All
        (λ (k : JobMatch). any (λ (o : Occurrence). o.id == k.occurrence_id) m.occurrences ≡ true)
        ks
    → Returns (recap_window zone now user start end_at ks m)
unfolding recap_window moved_on
recap_window-Returns zone now user start end_at [] m w h = (
  moved_on user end_at (next_cutoff zone end_at) m,
  refl,
  record { of_matches = w.of_matches; of_deliveries = w.of_deliveries },
)
recap_window-Returns zone now user start end_at (k ∷ ks) m w h =
    after-Returns user end_at (next_cutoff zone end_at) (k ∷ ks)
      (put_recap user start end_at now (k ∷ ks) (open_recap user m.deliveries) m)
      (put_recap-Returns user start end_at now (k ∷ ks) m w (open_recap user m.deliveries) h refl)

window_matches-All :
    (P : JobMatch → Type 0) (user start end_at : ℕ) (ks : List JobMatch)
    → All P ks
    → All P (window_matches user start end_at ks)
unfolding window_matches
window_matches-All P user start end_at ks h =
    All-order P matched_first (keep (in_window user start end_at) ks)
      (All-keep P (in_window user start end_at) ks h)

recap_from-Returns :
    (zone : Zone) (now user start next : ℕ) (m : Mailbox)
    → Resolved m
    → Returns (recap_from zone now user (some start) (some next) m)
unfolding recap_from
recap_from-Returns zone now user start next m w =
    let end_at = last_cutoff zone now next in
    recap_window-Returns zone now user start end_at (window_matches user start end_at m.matches) m w
      (window_matches-All
        (λ (k : JobMatch). any (λ (o : Occurrence). o.id == k.occurrence_id) m.occurrences ≡ true)
        user start end_at m.matches w.of_matches)

-- A window is set: both its ends are.
abbrev pub HasWindow : Subscriber → Type 0
HasWindow u = (s : ℕ) × (t : ℕ) × (u.window_start ≡ some s) × (u.next_recap ≡ some t)

recap_users-step :
    (zones : Text → Zone) (now : ℕ) (u : Subscriber) (us : List Subscriber) (m n p : Mailbox)
    → recap_from (zones u.timezone) now u.id u.window_start u.next_recap m ≡ some n
    → recap_users zones now us n ≡ some p
    → recap_users zones now (u ∷ us) m ≡ some p
unfolding recap_users
recap_users-step zones now u us m n p e f = ground arith

recap_from-at :
    (zone : Zone) (now user s t : ℕ) (start next : Option ℕ) (m n : Mailbox)
    → start ≡ some s
    → next ≡ some t
    → recap_from zone now user (some s) (some t) m ≡ some n
    → recap_from zone now user start next m ≡ some n
recap_from-at zone now user s t start next m n a b e = rw (a, b) e

recap_users-Returns :
    (zones : Text → Zone) (now : ℕ) (us : List Subscriber) (m : Mailbox)
    → All HasWindow us
    → Resolved m
    → Returns (recap_users zones now us m)
unfolding recap_users
recap_users-Returns zones now [] m h w = (m, refl, w)
recap_users-Returns zones now (u ∷ us) m h w =
    let (s, t, a, b) = h.0 in
    let (n, e, v) = recap_from-Returns (zones u.timezone) now u.id s t m w in
    let (p, f, x) = recap_users-Returns zones now us n h.1 v in
    let here =
      recap_from-at (zones u.timezone) now u.id s t u.window_start u.next_recap m n a b e in
    (p, recap_users-step zones now u us m n p here f, x)

has_windows :
    (now : ℕ) (vs : List Subscriber)
    → All (λ (u : Subscriber). is_recap_due now u ≡ true → HasWindow u) vs
    → All HasWindow (keep (is_recap_due now) vs)
has_windows now [] h = tt
has_windows now (v ∷ vs) h = ground (arith, h.0, has_windows now vs)

-- make_recaps raises no exception where every subscriber whose recap is due has both ends of a window and the
-- occurrences of all matches and deliveries are in the table, and they are afterwards.
pub make_recaps_returns :
    (zones : Text → Zone) (now : ℕ) (m : Mailbox)
    → All (λ (u : Subscriber). is_recap_due now u ≡ true → HasWindow u) m.subscribers
    → Resolved m
    → (n : Mailbox) × (make_recaps zones now m ≡ some n) × Resolved n
unfolding make_recaps
make_recaps_returns zones now m h w =
    elim (Bool-cases (any (λ (e : DiscoveryEvent). not e.processed) m.events)) [
      | inl e ↦ rw e (m, refl, w)
      | inr e ↦ rw e (
          recap_users-Returns zones now (keep (is_recap_due now) m.subscribers) m
            (has_windows now m.subscribers h) w)
    ]
