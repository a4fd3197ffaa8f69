-- ===== src/Notifications/Matching.antt =====
-- app/notifications/worker.py delivery and match_events.
use job_ping.Base.{
  ℕ, ◌+◌, Bool, true, not, ◌&&◌, ◌||◌, Option, none, some, List, [], ◌∷◌, ◌++◌, keep, find, ltb,
  leb, if◌then◌else◌, ◌==◌, elem, nat_eq, take, any, order_by, list_eq, option_eq,
}
use job_ping.Notifications.Models.{
  DeliveryKind, Occurrence, Mailbox, Subscriber, JobMatch, DedupeKey, DiscoveryEvent, Posting,
  EmailDelivery, DeliveryStatus, of_alert,
}

unfoldable pub delivery : ℕ → ℕ → DeliveryKind → DedupeKey → List ℕ → List ℕ → ℕ → EmailDelivery
delivery uuid user kind key job_ids occurrence_ids now = record {
  id = uuid;
  subscriber_id = user;
  kind = kind;
  dedupe_key = key;
  job_ids = job_ids;
  occurrence_ids = occurrence_ids;
  total_matches = 0;
  new_count = 0;
  reposted_count = 0;
  window_start = none;
  window_end = none;
  created_at = now;
  due_at = now;
  status = DeliveryStatus.pending;
  lease_until = none;
  first_attempt = none;
  attempts = 0;
  payload = none;
  account = none;
  connection_version = none;
  provider_id = none;
  error_code = none;
}

-- A discovery with its occurrence and its job, as the query joins them.
pub record Discovery : Type 0 where
  pub event : DiscoveryEvent
  pub occurrence : Occurrence
  pub job : Posting

unfoldable pub joined : Option Occurrence → Option Posting → DiscoveryEvent → List Discovery
joined (some o) (some j) e = record { event = e; occurrence = o; job = j } ∷ []
joined _ _ e = []

unfoldable pub discoveries : List Occurrence → List Posting → List DiscoveryEvent → List Discovery
unfolding joined
discoveries os js [] = []
discoveries os js (e ∷ es) =
    (if e.processed
      then []
      else joined (find (λ o. o.id == e.occurrence_id) os) (find (λ j. j.id == e.job_id) js) e)
    ++ discoveries os js es

unfoldable pub discovered_first : Discovery → Discovery → Bool
discovered_first a b = leb a.event.discovered_at b.event.discovered_at

-- The 500 oldest that are not processed.
unfoldable pub backlog : Mailbox → List Discovery
unfolding discoveries discovered_first
backlog m = take 500 (order_by discovered_first (discoveries m.occurrences m.postings m.events))

unfoldable pub is_recipient : Subscriber → Bool
is_recipient u = u.verified && not u.suppressed

-- `opted_at is None or discovered_at < opted_at`
unfoldable pub is_before : ℕ → Option ℕ → Bool
is_before t none = true
is_before t (some opted) = ltb t opted

-- The condition under which match_events passes a subscriber over.
unfoldable pub is_unwanted : Discovery → Subscriber → Bool
unfolding is_before
is_unwanted d u =
    not (u.alerts || u.recap)
    || is_before d.event.discovered_at u.opted_at
    || not (elem d.job.job_type u.job_types)
    || not (elem d.job.season u.seasons)

unfoldable pub is_match : ℕ → ℕ → JobMatch → Bool
is_match user occurrence k = k.subscriber_id == user && k.occurrence_id == occurrence

unfoldable pub match_of : Subscriber → Discovery → JobMatch
match_of u d = record {
  subscriber_id = u.id;
  occurrence_id = d.occurrence.id;
  job_id = d.job.id;
  reposted = d.event.reposted;
  discovered_at = d.event.discovered_at;
}

unfoldable pub alert_of : ℕ → ℕ → Subscriber → Discovery → EmailDelivery
unfolding delivery
alert_of uuid now u d =
    delivery uuid u.id DeliveryKind.alert (of_alert u.id d.occurrence.id) (d.job.id ∷ [])
      (d.occurrence.id ∷ []) now

unfoldable pub add_alert : ℕ → Subscriber → Discovery → Mailbox → Mailbox
unfolding alert_of
add_alert now u d m =
    if u.alerts && d.occurrence.closed_at == none
    then record m {
      deliveries = m.deliveries ++ (alert_of m.next_uuid now u d ∷ []);
      next_uuid = m.next_uuid + 1;
    }
    else m

unfoldable pub add_match : Subscriber → Discovery → Mailbox → Mailbox
unfolding match_of
add_match u d m = record m { matches = m.matches ++ (match_of u d ∷ []) }

-- The body of the loop over the subscribers.
unfoldable pub match_user : ℕ → Discovery → Subscriber → Mailbox → Mailbox
unfolding is_unwanted is_match add_alert add_match
match_user now d u m =
    if is_unwanted d u || any (is_match u.id d.occurrence.id) m.matches
    then m
    else add_alert now u d (add_match u d m)

unfoldable pub match_users : ℕ → Discovery → List Subscriber → Mailbox → Mailbox
unfolding match_user
match_users now d [] m = m
match_users now d (u ∷ us) m = match_users now d us (match_user now d u m)

unfoldable pub set_processed : ℕ → List DiscoveryEvent → List DiscoveryEvent
set_processed id [] = []
set_processed id (e ∷ es) =
    (if e.id == id then record e { processed = true } else e) ∷ set_processed id es

unfoldable pub mark_processed : Discovery → Mailbox → Mailbox
unfolding set_processed
mark_processed d m = record m { events = set_processed d.event.id m.events }

unfoldable pub match_each : ℕ → List Subscriber → List Discovery → Mailbox → Mailbox
unfolding match_users mark_processed
match_each now us [] m = m
match_each now us (d ∷ ds) m = match_each now us ds (mark_processed d (match_users now d us m))

unfoldable pub match_events : ℕ → Mailbox → Mailbox
unfolding backlog is_recipient match_each
match_events now m = match_each now (keep is_recipient m.subscribers) (backlog m) m
