-- ===== src/Notifications/Coverage.antt =====
-- What app/notifications/worker.py make_recaps lists: every match of the window, in a recap that is still to be
-- sent, whether it is new or an earlier one.
use job_ping.Base.{
  ℕ, ◌≡◌, refl, Bool, true, ◌&&◌, List, [], ◌∷◌, ◌++◌, map, arith, keep, All, nat_beq_iff, ◌==◌,
  elem, nat_eq, order_by, any, some, All-keep, All-imp, All-order, Option, none, any-append, ◌∙◌,
}
use job_ping.Notifications.Models.{
  EmailDelivery, JobMatch, DeliveryKind-discrete, DeliveryStatus-discrete, Mailbox, Occurrence,
}
use job_ping.Notifications.Recaps.{
  replace, fold_alerts, is_open_recap, in_window, is_stale, open_recap, created_first, new_recap,
  folded_recap, put_recap, folded_ids, add_recap, recap_from, fold_into, jobs_of, map_some,
  recap_window, window_matches, without_alerts, moved_on,
}
use job_ping.Notifications.Cutoff.{Zone, last_cutoff, next_cutoff}
use job_ping.Notifications.Matching.{delivery}
use job_ping.Notifications.Members.{
  All-first, elem-from_keys, elem-order, window-has, keep-has, elem-append, self-has,
}

-- A recap of the subscriber, not attempted yet, lists the occurrence.
abbrev pub lists : ℕ → ℕ → EmailDelivery → Bool
lists user o d = is_open_recap user d && elem o d.occurrence_ids

-- The first open recap is one of the deliveries.
replaced :
    (user o : ℕ) (item new : EmailDelivery) (ds : List EmailDelivery)
    → new.id ≡ item.id
    → any (λ (d : EmailDelivery). d.id == item.id) ds ≡ true
    → lists user o new ≡ true
    → any (lists user o) (replace new ds) ≡ true
unfolding replace
replaced user o item new [] e h k = absurd (ground arith)
replaced user o item new (d ∷ ds) e h k = ground (arith, replaced user o item new ds e)

-- Folding alerts leaves the recaps.
alerts-folded :
    (user o : ℕ) (ids : List ℕ) (ds : List EmailDelivery)
    → any (lists user o) ds ≡ true
    → any (lists user o) (fold_alerts user ids ds) ≡ true
unfolding fold_alerts is_stale is_open_recap DeliveryKind-discrete DeliveryStatus-discrete
alerts-folded user o ids [] h = h
alerts-folded user o ids (d ∷ ds) h = ground (arith, alerts-folded user o ids ds)

-- The recap that make_recaps folds into is an open recap of the subscriber, among the deliveries.
pub open_recap-found :
    (user : ℕ) (ds : List EmailDelivery) (item : EmailDelivery)
    → open_recap user ds ≡ some item
    → (is_open_recap user item ≡ true) × (any (λ (e : EmailDelivery). e.id == item.id) ds ≡ true)
unfolding open_recap
open_recap-found user ds item h =
    let open_ones = keep (is_open_recap user) ds in
    (
      All-first (λ d. is_open_recap user d ≡ true) (order_by created_first open_ones) item
          (All-order (λ d. is_open_recap user d ≡ true) created_first open_ones
            (keep-has (is_open_recap user) ds))
          h,
      All-first (λ d. any (λ (e : EmailDelivery). e.id == d.id) ds ≡ true)
          (order_by created_first open_ones) item
          (All-order (λ d. any (λ (e : EmailDelivery). e.id == d.id) ds ≡ true) created_first
            open_ones
            (All-keep (λ d. any (λ (e : EmailDelivery). e.id == d.id) ds ≡ true)
              (is_open_recap user) ds (self-has ds)))
          h,
    )

new-lists :
    (uuid user start end_at now i : ℕ) (ks : List JobMatch)
    → elem i (map (λ l. l.occurrence_id) ks) ≡ true
    → lists user i (new_recap uuid user start end_at now ks) ≡ true
unfolding new_recap is_open_recap delivery
new-lists uuid user start end_at now i ks h = ground (arith, nat_beq_iff user user)

folded-lists :
    (os : List Occurrence) (user end_at now i : ℕ) (item : EmailDelivery) (jobs : List ℕ)
    (ks : List JobMatch)
    → is_open_recap user item ≡ true
    → elem i (map (λ l. l.occurrence_id) ks) ≡ true
    → lists user i (folded_recap os end_at now item (folded_ids item ks) jobs) ≡ true
unfolding folded_recap is_open_recap folded_ids
folded-lists os user end_at now i item jobs ks h k =
    let new_ids = map (λ (l : JobMatch). l.occurrence_id) ks in
    ground (
      arith,
      elem-from_keys i (item.occurrence_ids ++ new_ids),
      elem-append i item.occurrence_ids new_ids,
    )

folded-id :
    (os : List Occurrence) (end_at now : ℕ) (item : EmailDelivery) (ids jobs : List ℕ)
    → (folded_recap os end_at now item ids jobs).id ≡ item.id
unfolding folded_recap
folded-id os end_at now item ids jobs = refl

put_recap-lists :
    (user start end_at now i : ℕ) (ks : List JobMatch) (m n : Mailbox)
    → elem i (map (λ l. l.occurrence_id) ks) ≡ true
    → (o : Option EmailDelivery) → open_recap user m.deliveries ≡ o
    → put_recap user start end_at now ks o m ≡ some n
    → any (lists user i) n.deliveries ≡ true
unfolding put_recap add_recap
put_recap-lists user start end_at now i ks m n h none e k =
    let new = new_recap m.next_uuid user start end_at now ks in
    let added : n.deliveries ≡ m.deliveries ++ (new ∷ []) = ground arith in
    rw (added, any-append (lists user i) m.deliveries (new ∷ []))
      (ground (arith, new-lists m.next_uuid user start end_at now i ks h))
put_recap-lists user start end_at now i ks m n h (some item) e k =
    go (jobs_of m.occurrences (folded_ids item ks)) k
  where
    go :
        (js : Option (List ℕ))
        → fold_into end_at now item (folded_ids item ks) js m ≡ some n
        → any (lists user i) n.deliveries ≡ true
    go none f = absurd (ground arith)
    go (some js) f =
        let new = folded_recap m.occurrences end_at now item (folded_ids item ks) js in
        let found = open_recap-found user m.deliveries item e in
        let put_delivery : n.deliveries ≡ replace new m.deliveries = ground arith in
        rw put_delivery (
          replaced user i item new m.deliveries
            (folded-id m.occurrences end_at now item (folded_ids item ks) js) found.1
            (folded-lists m.occurrences user end_at now i item js ks found.0 h))

after-lists :
    (user end_at next i : ℕ) (ks : List JobMatch) (o : Option Mailbox) (n : Mailbox)
    → ((p : Mailbox) → o ≡ some p → any (lists user i) p.deliveries ≡ true)
    → map_some (λ p. without_alerts user ks (moved_on user end_at next p)) o ≡ some n
    → any (lists user i) n.deliveries ≡ true
unfolding map_some without_alerts moved_on
after-lists user end_at next i ks none n f h = absurd (ground arith)
after-lists user end_at next i ks (some p) n f h =
    let ids = map (λ (k : JobMatch). k.occurrence_id) ks in
    let put_delivery : n.deliveries ≡ fold_alerts user ids p.deliveries = ground arith in
    rw put_delivery (alerts-folded user i ids p.deliveries (f p refl))

recap_window-lists :
    (zone : Zone) (now user start end_at i : ℕ) (ks : List JobMatch) (m n : Mailbox)
    → elem i (map (λ l. l.occurrence_id) ks) ≡ true
    → recap_window zone now user start end_at ks m ≡ some n
    → any (lists user i) n.deliveries ≡ true
unfolding recap_window elem
recap_window-lists zone now user start end_at i [] m n h k = absurd (ground arith)
recap_window-lists zone now user start end_at i (k ∷ ks) m n h e =
    after-lists user end_at (next_cutoff zone end_at) i (k ∷ ks)
      (put_recap user start end_at now (k ∷ ks) (open_recap user m.deliveries) m) n
      (λ p.
        put_recap-lists user start end_at now i (k ∷ ks) m p h (open_recap user m.deliveries) refl)
      e

window_matches-has :
    (user start end_at i : ℕ) (ks : List JobMatch)
    → elem i (map (λ l. l.occurrence_id) (keep (in_window user start end_at) ks)) ≡ true
    → elem i (map (λ l. l.occurrence_id) (window_matches user start end_at ks)) ≡ true
unfolding window_matches
window_matches-has user start end_at i ks h =
    elem-order i (keep (in_window user start end_at) ks) ∙ h

-- Where make_recaps returns for a subscriber, every match of the window that the recap closes is listed in a
-- recap of the subscriber that is still to be sent, be it a new one or one whose first attempt is to come.
pub recap_covers_window :
    (zone : Zone) (now user start next : ℕ) (m n : Mailbox)
    → recap_from zone now user (some start) (some next) m ≡ some n
    → All
        (λ (k : JobMatch).
          in_window user start (last_cutoff zone now next) k ≡ true
          → any (lists user k.occurrence_id) n.deliveries ≡ true)
        m.matches
unfolding recap_from
recap_covers_window zone now user start next m n h =
    let end_at = last_cutoff zone now next in
    All-imp
      (λ (k : JobMatch).
        in_window user start end_at k ≡ true
        → elem k.occurrence_id
            (map (λ l. l.occurrence_id) (keep (in_window user start end_at) m.matches))
          ≡ true)
      (λ (k : JobMatch).
        in_window user start end_at k ≡ true → any (lists user k.occurrence_id) n.deliveries ≡ true)
      m.matches
      (λ k f w.
        recap_window-lists zone now user start end_at k.occurrence_id
          (window_matches user start end_at m.matches) m n
          (window_matches-has user start end_at k.occurrence_id m.matches (f w)) h)
      (window-has user start end_at m.matches)
