-- ===== src/Notifications/Examples.antt =====
-- Runs of matching and of recaps, in the zone UTC.
use job_ping.Base.{
  ℕ, ◌+◌, ◌*◌, ◌/◌, ◌%◌, ◌≤◌, ◌<◌, ◌≡◌, refl, true, false, not, none, some, [], ◌∷◌, arith, keep,
  All, codes, any, Option, map, elem, nat_eq, take, order_by,
}
use job_ping.Notifications.Cutoff.{
  Zone, Evenings, last_cutoff, catch_up, next_cutoff, catch_up_ends,
}
use job_ping.Notifications.Models.{
  Subscriber, Mailbox, Provider, DiscoveryEvent, SenderStatus, EmailDelivery, JobMatch,
  DeliveryKind, DeliveryStatus, of_alert, DeliveryKind-discrete, DeliveryStatus-discrete,
}
use job_ping.Notifications.MatchLaws.{Matched, match_events-Matched}
use job_ping.Notifications.Matching.{Discovery, match_events, is_recipient, backlog}
use job_ping.Notifications.Drained.{IsDrained, IsServed, match_events_drains}
use job_ping.Notifications.Recaps.{make_recaps, recap_from, is_recap_due, in_window}
use job_ping.Notifications.Resolved.{Resolved}
use job_ping.Notifications.Windows.{make_recaps_settles}
use job_ping.Notifications.RecapsReturn.{make_recaps_returns}
use job_ping.Notifications.Coverage.{lists, recap_covers_window}

abbrev pub utc_zone : Zone
utc_zone = record { day = λ t. t / 86400; second = λ t. t % 86400; instant = λ d s. d * 86400 + s }

utc_zone-Evenings : Evenings utc_zone
utc_zone-Evenings = record { same_day = λ t h. omega arith; next_day = λ t. omega arith }

-- The evening of the day 10 is due on the day 12 in the evening.
catch_up_ends_example :
    (936000 ≤ last_cutoff utc_zone 1108900 936000)
    × (last_cutoff utc_zone 1108900 936000 ≤ 1108900)
    × (1108900 < next_cutoff utc_zone (last_cutoff utc_zone 1108900 936000))
    × ((more : ℕ)
        → 1108900 < more
        → catch_up utc_zone 1108900 more 936000 ≡ last_cutoff utc_zone 1108900 936000)
catch_up_ends_example = catch_up_ends utc_zone-Evenings 1108900 936000 (omega arith)

caught_up : catch_up utc_zone 1108900 5 936000 ≡ 1108800
unfolding catch_up
caught_up = refl

abbrev pub reader : Subscriber
reader = record {
  id = 1;
  email = codes "a@b.c";
  verified = true;
  suppressed = false;
  alerts = true;
  recap = true;
  job_types = codes "internship" ∷ [];
  seasons = 2026 ∷ [];
  timezone = codes "UTC";
  opted_at = some 900000;
  window_start = some 900000;
  next_recap = some 936000;
  provider = Provider.shared;
  sender = none;
  key_ciphertext = [];
  webhook_id = codes "w1";
  unsubscribe_token = codes "u1";
  webhook_ciphertext = none;
  connection_version = codes "v1";
  status = SenderStatus.ready;
}

abbrev found_event : DiscoveryEvent
found_event = record {
  id = 3;
  occurrence_id = 5;
  job_id = 9;
  reposted = false;
  discovered_at = 910000;
  processed = false;
}

abbrev pub inbox : Mailbox
inbox = record {
  subscribers = reader ∷ [];
  events = found_event ∷ [];
  occurrences = record { id = 5; job_id = 9; reposted = false; closed_at = none } ∷ [];
  postings = record { id = 9; job_type = codes "internship"; season = 2026 } ∷ [];
  matches = [];
  deliveries = [];
  accounts = [];
  next_uuid = 100;
  webhook_events = [];
}

inbox-Matched : Matched inbox
inbox-Matched = record { one_match = tt; one_alert = tt; alerted = λ u o h. absurd (ground arith) }

match_events-Matched_example : Matched (match_events 920000 inbox)
match_events-Matched_example = match_events-Matched 920000 inbox inbox-Matched

match_events_drains_example :
    All
      (λ (d : Discovery).
        IsDrained d.event.id (match_events 920000 inbox)
        × All (IsServed d (match_events 920000 inbox)) (keep is_recipient inbox.subscribers))
      (backlog inbox)
match_events_drains_example = match_events_drains 920000 inbox

abbrev pub first_alert : EmailDelivery
first_alert = record {
  id = 100;
  subscriber_id = 1;
  kind = DeliveryKind.alert;
  dedupe_key = of_alert 1 5;
  job_ids = 9 ∷ [];
  occurrence_ids = 5 ∷ [];
  total_matches = 0;
  new_count = 0;
  reposted_count = 0;
  window_start = none;
  window_end = none;
  created_at = 920000;
  due_at = 920000;
  status = DeliveryStatus.pending;
  lease_until = none;
  first_attempt = none;
  attempts = 0;
  payload = none;
  account = none;
  connection_version = none;
  provider_id = none;
  error_code = none;
}

abbrev pub drained : Mailbox
drained = record inbox {
  events = record found_event { processed = true } ∷ [];
  matches =
      record {
        subscriber_id = 1;
        occurrence_id = 5;
        job_id = 9;
        reposted = false;
        discovered_at = 910000;
      }
      ∷ [];
  deliveries = first_alert ∷ [];
  next_uuid = 101;
}

drains : match_events 920000 inbox ≡ drained
unfolding match_events take order_by elem
drains = refl

drained_events : any (λ (e : DiscoveryEvent). not e.processed) drained.events ≡ false
drained_events = refl

abbrev or_drained : Option Mailbox → Mailbox
or_drained none = drained
or_drained (some m) = m

abbrev recapped : Mailbox
recapped = or_drained (make_recaps (λ _. utc_zone) 936100 drained)

returned : make_recaps (λ _. utc_zone) 936100 drained ≡ some recapped
unfolding make_recaps order_by elem DeliveryKind-discrete DeliveryStatus-discrete
returned = refl

make_recaps_settles_example :
    All (λ (u : Subscriber). is_recap_due 936100 u ≡ false) recapped.subscribers
make_recaps_settles_example =
    make_recaps_settles (λ _. utc_zone) (λ _. utc_zone-Evenings) 936100 drained recapped
      drained_events returned

has_recap :
    map (λ (d : EmailDelivery). d.status) recapped.deliveries
    ≡ DeliveryStatus.recap_only ∷ DeliveryStatus.pending ∷ []
unfolding make_recaps order_by elem DeliveryKind-discrete DeliveryStatus-discrete
has_recap = refl

abbrev recapped_once : Mailbox
recapped_once = or_drained (recap_from utc_zone 936100 1 (some 900000) (some 936000) drained)

returned_once :
    recap_from utc_zone 936100 1 (some 900000) (some 936000) drained ≡ some recapped_once
unfolding recap_from order_by elem DeliveryKind-discrete DeliveryStatus-discrete
returned_once = refl

recap_covers_window_example :
    All
      (λ (k : JobMatch).
        in_window 1 900000 (last_cutoff utc_zone 936100 936000) k ≡ true
        → any (lists 1 k.occurrence_id) recapped_once.deliveries ≡ true)
      drained.matches
recap_covers_window_example =
    recap_covers_window utc_zone 936100 1 900000 936000 drained recapped_once returned_once

make_recaps_returns_example :
    (n : Mailbox) × (make_recaps (λ _. utc_zone) 936100 drained ≡ some n) × Resolved n
make_recaps_returns_example =
    make_recaps_returns (λ _. utc_zone) 936100 drained (λ h. (900000, 936000, refl, refl), tt)
      (record { of_matches = (refl, tt); of_deliveries = ((refl, tt), tt) })
