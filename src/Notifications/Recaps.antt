-- ===== src/Notifications/Recaps.antt =====
-- app/notifications/worker.py make_recaps. `none` is an exception, which rolls the transaction back.
use job_ping.Base.{
  ℕ, ◌+◌, ◌-◌, Bool, false, not, ◌&&◌, Option, none, some, List, [], ◌∷◌, ◌++◌, map, length, keep,
  find, Text, ltb, leb, if◌then◌else◌, ◌==◌, elem, nat_eq, order_by, any, option_eq,
}
use job_ping.Notifications.Models.{
  Subscriber, JobMatch, EmailDelivery, Occurrence, Mailbox, DeliveryKind, DeliveryStatus, of_recap,
  delivery_kind_eq, delivery_status_eq,
}
use job_ping.Notifications.Matching.{delivery, match_events}
use job_ping.Notifications.Cutoff.{next_cutoff, last_cutoff, Zone}

-- The query of the subscribers whose recap is due.
unfoldable pub is_recap_due : ℕ → Subscriber → Bool
is_recap_due now u =
    u.recap
    && u.verified
    && not u.suppressed
    && elim u.next_recap [ none ↦ false | some t ↦ leb t now ]

unfoldable pub in_window : ℕ → ℕ → ℕ → JobMatch → Bool
in_window user start end_at k =
    k.subscriber_id == user && leb start k.discovered_at && ltb k.discovered_at end_at

unfoldable pub matched_first : JobMatch → JobMatch → Bool
matched_first a b = leb a.discovered_at b.discovered_at

unfoldable pub window_matches : ℕ → ℕ → ℕ → List JobMatch → List JobMatch
unfolding in_window matched_first
window_matches user start end_at ks = order_by matched_first (keep (in_window user start end_at) ks)

unfoldable pub count_reposted : List JobMatch → ℕ
count_reposted ks = length (keep (λ k. k.reposted) ks)

-- `dict.fromkeys`: each id once, where it stands first.
unfoldable pub from_keys : List ℕ → List ℕ
from_keys [] = []
from_keys (x ∷ xs) = x ∷ keep (λ y. not (y == x)) (from_keys xs)

unfoldable pub is_open_recap : ℕ → EmailDelivery → Bool
is_open_recap user d =
    d.subscriber_id == user
    && d.kind == DeliveryKind.recap
    && d.status == DeliveryStatus.pending
    && d.first_attempt == none

unfoldable pub created_first : EmailDelivery → EmailDelivery → Bool
created_first a b = leb a.created_at b.created_at

unfoldable pub first_of {ℓ} : {A : Type ℓ} → List A → Option A
first_of [] = none
first_of (x ∷ xs) = some x

unfoldable pub open_recap : ℕ → List EmailDelivery → Option EmailDelivery
unfolding is_open_recap created_first first_of
open_recap user ds = first_of (order_by created_first (keep (is_open_recap user) ds))

-- `[job_by_occurrence[id] for id in ids]`, where a missing key raises.
unfoldable pub jobs_of : List Occurrence → List ℕ → Option (List ℕ)
jobs_of os [] = some []
jobs_of os (i ∷ is) = elim (find (λ o. o.id == i) os) [
  | none ↦ none
  | some o ↦ elim (jobs_of os is) [ none ↦ none | some js ↦ some (o.job_id ∷ js) ]
]

unfoldable pub count_reposts : List Occurrence → List ℕ → ℕ
count_reposts os ids = length (keep (λ o. elem o.id ids && o.reposted) os)

unfoldable pub new_recap : ℕ → ℕ → ℕ → ℕ → ℕ → List JobMatch → EmailDelivery
unfolding delivery count_reposted
new_recap uuid user start end_at now ks =
    record (delivery uuid user DeliveryKind.recap (of_recap user end_at) (map (λ k. k.job_id) ks)
      (map (λ k. k.occurrence_id) ks) now) {
        window_start = some start;
        window_end = some end_at;
        total_matches = length (map (λ k. k.occurrence_id) ks);
        new_count = length (map (λ k. k.occurrence_id) ks) - count_reposted ks;
        reposted_count = count_reposted ks;
      }

unfoldable pub folded_ids : EmailDelivery → List JobMatch → List ℕ
unfolding from_keys
folded_ids item ks = from_keys (item.occurrence_ids ++ map (λ k. k.occurrence_id) ks)

unfoldable pub folded_recap :
    List Occurrence → ℕ → ℕ → EmailDelivery → List ℕ → List ℕ → EmailDelivery
unfolding count_reposts
folded_recap os end_at now item ids jobs = record item {
  occurrence_ids = ids;
  job_ids = jobs;
  total_matches = length ids;
  reposted_count = count_reposts os ids;
  new_count = length ids - count_reposts os ids;
  payload = none;
  due_at = now;
  window_end = some end_at;
}

unfoldable pub replace : EmailDelivery → List EmailDelivery → List EmailDelivery
replace d [] = []
replace d (e ∷ es) = (if e.id == d.id then d else e) ∷ replace d es

unfoldable pub fold_into :
    ℕ → ℕ → EmailDelivery → List ℕ → Option (List ℕ) → Mailbox → Option Mailbox
unfolding folded_recap replace
fold_into end_at now item ids none m = none
fold_into end_at now item ids (some jobs) m = some (record m {
  deliveries = replace (folded_recap m.occurrences end_at now item ids jobs) m.deliveries;
})

unfoldable pub add_recap : ℕ → ℕ → ℕ → ℕ → List JobMatch → Mailbox → Mailbox
unfolding new_recap
add_recap user start end_at now ks m = record m {
  deliveries = m.deliveries ++ (new_recap m.next_uuid user start end_at now ks ∷ []);
  next_uuid = m.next_uuid + 1;
}

-- The recap of some matches: a new one, or what a recap that was never attempted becomes.
unfoldable pub put_recap :
    ℕ → ℕ → ℕ → ℕ → List JobMatch → Option EmailDelivery → Mailbox → Option Mailbox
unfolding add_recap fold_into folded_ids jobs_of
put_recap user start end_at now ks none m = some (add_recap user start end_at now ks m)
put_recap user start end_at now ks (some item) m =
    fold_into end_at now item (folded_ids item ks) (jobs_of m.occurrences (folded_ids item ks)) m

unfoldable pub is_stale : ℕ → List ℕ → EmailDelivery → Bool
is_stale user ids d =
    d.subscriber_id == user
    && d.kind == DeliveryKind.alert
    && d.status == DeliveryStatus.pending
    && d.first_attempt == none
    && any (λ i. elem i ids) d.occurrence_ids

unfoldable pub fold_alerts : ℕ → List ℕ → List EmailDelivery → List EmailDelivery
unfolding is_stale
fold_alerts user ids [] = []
fold_alerts user ids (d ∷ ds) =
    (if is_stale user ids d then record d { status = DeliveryStatus.recap_only } else d)
    ∷ fold_alerts user ids ds

unfoldable pub set_window : ℕ → ℕ → ℕ → List Subscriber → List Subscriber
set_window id start next [] = []
set_window id start next (u ∷ us) =
    (if u.id == id then record u { window_start = some start; next_recap = some next } else u)
    ∷ set_window id start next us

unfoldable pub moved_on : ℕ → ℕ → ℕ → Mailbox → Mailbox
unfolding set_window
moved_on user end_at next m = record m { subscribers = set_window user end_at next m.subscribers }

unfoldable pub without_alerts : ℕ → List JobMatch → Mailbox → Mailbox
unfolding fold_alerts
without_alerts user ks m = record m {
  deliveries = fold_alerts user (map (λ k. k.occurrence_id) ks) m.deliveries;
}

unfoldable pub map_some {ℓ κ} : {A : Type ℓ} {B : Type κ} → (A → B) → Option A → Option B
map_some f none = none
map_some f (some a) = some (f a)

-- What the loop's body does with the matches of the window.
unfoldable pub recap_window : Zone → ℕ → ℕ → ℕ → ℕ → List JobMatch → Mailbox → Option Mailbox
unfolding put_recap open_recap moved_on without_alerts map_some next_cutoff
recap_window zone now user start end_at [] m =
    some (moved_on user end_at (next_cutoff zone end_at) m)
recap_window zone now user start end_at (k ∷ ks) m =
    map_some (λ n. without_alerts user (k ∷ ks) (moved_on user end_at (next_cutoff zone end_at) n))
      (put_recap user start end_at now (k ∷ ks) (open_recap user m.deliveries) m)

unfoldable pub recap_from : Zone → ℕ → ℕ → Option ℕ → Option ℕ → Mailbox → Option Mailbox
unfolding recap_window window_matches last_cutoff
recap_from zone now user (some start) (some next) m =
    recap_window zone now user start (last_cutoff zone now next)
      (window_matches user start (last_cutoff zone now next) m.matches) m
recap_from zone now user start next m = none

unfoldable pub recap_users : (Text → Zone) → ℕ → List Subscriber → Mailbox → Option Mailbox
unfolding recap_from
recap_users zones now [] m = some m
recap_users zones now (u ∷ us) m =
    elim (recap_from (zones u.timezone) now u.id u.window_start u.next_recap m) [
      | none ↦ none
      | some n ↦ recap_users zones now us n
    ]

unfoldable pub make_recaps : (Text → Zone) → ℕ → Mailbox → Option Mailbox
unfolding is_recap_due recap_users
make_recaps zones now m =
    if any (λ e. not e.processed) m.events
    then some m
    else recap_users zones now (keep (is_recap_due now) m.subscribers) m

-- NotificationWorker.prepare
unfoldable pub prepare : (Text → Zone) → ℕ → Mailbox → Option Mailbox
unfolding make_recaps
prepare zones now m = make_recaps zones now (match_events now m)
