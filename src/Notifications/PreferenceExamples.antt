-- ===== src/Notifications/PreferenceExamples.antt =====
-- Runs of the handlers of settings and accounts.
use job_ping.Base.{
  ℕ, ◌≡◌, refl, true, false, none, some, [], ◌∷◌, codes, any, arith, take, order_by, elem, List,
  length, nat_eq,
}
use job_ping.Notifications.Models.{DeliveryKind-discrete, DeliveryStatus-discrete}
use job_ping.Notifications.MatchAll.{match_backlog, is_pending}
use job_ping.Notifications.MatchEnds.{matching_ends}
use job_ping.Notifications.Admitted.{Caller, Fresh}
use job_ping.Notifications.Preferences.{
  has_place, PreferenceCall, get_settings, put_settings, unsubscribe, Surroundings, Settings,
}
use job_ping.Notifications.Places.{HasPlaces}
use job_ping.Notifications.PlacesKept.{respond_all, respond_all-HasPlaces}
use job_ping.Notifications.Examples.{inbox, utc_zone}

matching_ends_example :
    (any is_pending (match_backlog 920000 inbox).events ≡ false)
    × ((match_backlog 920000 inbox).occurrences ≡ inbox.occurrences)
    × ((match_backlog 920000 inbox).postings ≡ inbox.postings)
    × ((match_backlog 920000 inbox).subscribers ≡ inbox.subscribers)
matching_ends_example = matching_ends 920000 inbox (
  record {
    occurrence = record { id = 5; job_id = 9; reposted = false; closed_at = none };
    job = record { id = 9; job_type = codes "internship"; season = 2026 };
    has_occurrence = refl;
    has_job = refl;
  },
  tt,
)

abbrev surroundings : Surroundings
surroundings = record { zones = λ name. utc_zone; is_zone = λ name. true; encrypt = λ t. some t }

abbrev fresh : Fresh
fresh = record { token = codes "t"; webhook_id = codes "h"; version = codes "v2" }

abbrev newcomer : Caller
newcomer = record { uid = 7; email = codes "n@e.w"; verified = true }

abbrev only_alerts : Settings
only_alerts = record {
  alerts = true;
  recap = false;
  job_types = codes "internship" ∷ [];
  seasons = 2026 ∷ [];
  timezone = codes "UTC";
}

abbrev calls : List (Fresh × ℕ × PreferenceCall)
calls =
    (fresh, 920000, get_settings newcomer (codes "UTC"))
    ∷ (fresh, 920010, put_settings newcomer only_alerts)
    ∷ (fresh, 920020, unsubscribe (codes "u1"))
    ∷ []

-- The newcomer takes the second place, and the first one is given up.
places_after : length (respond_all surroundings calls inbox).subscribers ≡ 2
unfolding respond_all take order_by elem DeliveryKind-discrete DeliveryStatus-discrete
places_after = refl

inbox-HasPlaces : HasPlaces inbox
unfolding has_place
inbox-HasPlaces = record { one_row = (refl, tt); places = omega arith }

respond_all-HasPlaces_example : HasPlaces (respond_all surroundings calls inbox)
respond_all-HasPlaces_example = respond_all-HasPlaces surroundings calls inbox inbox-HasPlaces
