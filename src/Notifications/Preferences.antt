-- ===== src/Notifications/Preferences.antt =====
-- app/notifications/api.py: the handlers of a subscriber's settings and mail account. What a handler returns is a view
-- of the subscriber and is not modelled; an exception undoes what it wrote.
use job_ping.Base.{
  ℕ, ◌+◌, Bool, false, not, ◌&&◌, ◌||◌, Option, none, some, List, [], ◌∷◌, ◌++◌, map, length, keep,
  find, any, Text, codes, is_empty, ltb, leb, if◌then◌else◌, ◌==◌, nat_eq, list_eq, Exec, pure,
  guard, gets, modify, ◌>>=◌, ◌>>◌, ok, err, true,
}
use job_ping.Notifications.Models.{
  EmailDelivery, Mailbox, Subscriber, Provider, DeliveryStatus, DeliveryKind, SenderStatus,
  delivery_status_eq, delivery_kind_eq, of_test,
}
use job_ping.Notifications.Admitted.{Caller, Fresh, admit}
use job_ping.Notifications.Budget.{is_shared}
use job_ping.Notifications.Claims.{set_user}
use job_ping.Notifications.Cutoff.{Zone, next_cutoff}
use job_ping.Notifications.Matching.{delivery}
use job_ping.Notifications.MatchAll.{match_backlog}
use job_ping.Notifications.Webhook.{RequestError, http, cancel_pending, or_undone}

pub record Settings : Type 0 where
  pub alerts : Bool
  pub recap : Bool
  pub job_types : List Text
  pub seasons : List ℕ
  pub timezone : Text

-- The body of put_provider, app/notifications/api.py Provider.
pub record ProviderBody : Type 0 where
  pub api_key : Text
  pub sender : Text
  pub webhook_secret : Option Text

-- A subscriber who takes one of the places on the shared account.
unfoldable pub has_place : Subscriber → Bool
unfolding is_shared
has_place u = is_shared u.provider && (u.alerts || u.recap) && not u.suppressed

unfoldable pub others_placed : ℕ → List Subscriber → ℕ
unfolding has_place
others_placed id us = length (keep (λ u. not (u.id == id) && has_place u) us)

-- `shared_capacity` raises.
unfoldable pub is_full : Subscriber → Mailbox → Bool
unfolding others_placed is_shared
is_full u m = is_shared u.provider && leb 10 (others_placed u.id m.subscribers)

unfoldable pub enrols : Settings → Bool
enrols s = s.alerts || s.recap

unfoldable cancelled_kind : ℕ → DeliveryKind → EmailDelivery → EmailDelivery
cancelled_kind user kind d =
    if d.subscriber_id == user && d.kind == kind && d.status == DeliveryStatus.pending
    then record d { status = DeliveryStatus.cancelled }
    else d

unfoldable pub cancel_kind : ℕ → DeliveryKind → Mailbox → Mailbox
unfolding cancelled_kind
cancel_kind user kind m = record m { deliveries = map (cancelled_kind user kind) m.deliveries }

unfoldable new_recap_at : (Text → Zone) → ℕ → Settings → Subscriber → Option ℕ
unfolding next_cutoff
new_recap_at zones now s u =
    if not s.recap
    then none
    else if not u.recap || not (s.timezone == u.timezone)
    then some (next_cutoff (zones s.timezone) now)
    else u.next_recap

unfoldable pub with_settings : (Text → Zone) → ℕ → Settings → Subscriber → Subscriber
unfolding new_recap_at enrols
with_settings zones now s u = record u {
  opted_at = if enrols s && not (u.alerts || u.recap) then some now else u.opted_at;
  window_start = if s.recap && not u.recap then some now else u.window_start;
  next_recap = new_recap_at zones now s u;
  alerts = s.alerts;
  recap = s.recap;
  job_types = s.job_types;
  seasons = s.seasons;
  timezone = s.timezone;
}

unfoldable pub cancel_unless : Bool → ℕ → DeliveryKind → Mailbox → Mailbox
unfolding cancel_kind
cancel_unless true user kind m = m
cancel_unless false user kind m = cancel_kind user kind m

-- What put_settings writes once it has admitted the caller and refused nothing.
unfoldable pub write_settings : (Text → Zone) → ℕ → Settings → ℕ → Mailbox → Mailbox
unfolding match_backlog cancel_unless with_settings set_user
write_settings zones now s user m =
    let alerted = cancel_unless s.alerts user DeliveryKind.alert (match_backlog now m) in
    set_user user (with_settings zones now s)
      (cancel_unless s.recap user DeliveryKind.recap alerted)

unfoldable pub settle_settings :
    (Text → Zone) → ℕ → Settings → Caller → Subscriber → Exec RequestError Mailbox Unit
unfolding write_settings is_full enrols
settle_settings zones now s who u m =
    if enrols s && not who.verified
    then (err (http 403), m)
    else if enrols s && u.suppressed
    then (err (http 409), m)
    else if enrols s && is_full u m
    then (err (http 409), m)
    else (ok tt, write_settings zones now s who.uid m)

unfoldable pub with_provider : Fresh → Text → Text → Option Text → Subscriber → Subscriber
with_provider f sender cipher hook u = record u {
  provider = Provider.byok;
  sender = some sender;
  key_ciphertext = cipher;
  webhook_ciphertext = hook;
  status = SenderStatus.needs_test;
  connection_version = f.version;
}

-- `encrypt(...) if webhook_secret else None`, where `none` is what encrypt raises.
unfoldable pub encrypted_hook : (Text → Option Text) → Option Text → Option (Option Text)
encrypted_hook encrypt none = some none
encrypted_hook encrypt (some t) =
    if is_empty t then some none else elim (encrypt t) [ none ↦ none | some c ↦ some (some c) ]

unfoldable pub store_provider :
    Fresh → Text → ℕ → Option Text → Option (Option Text) → Exec RequestError Mailbox Unit
unfolding with_provider cancel_pending set_user
store_provider f sender user (some cipher) (some hook) m =
    (ok tt, set_user user (with_provider f sender cipher hook) (cancel_pending user m))
store_provider f sender user _ _ m = (err (http 503), m)

unfoldable pub without_provider : Fresh → Subscriber → Subscriber
without_provider f u = record u {
  provider = Provider.shared;
  status = SenderStatus.ready;
  key_ciphertext = [];
  webhook_ciphertext = none;
  sender = none;
  connection_version = f.version;
  webhook_id = f.webhook_id;
  alerts = false;
  recap = false;
  next_recap = none;
}

unfoldable pub remove_provider : Fresh → ℕ → Mailbox → Mailbox
unfolding without_provider cancel_pending set_user
remove_provider f user m = set_user user (without_provider f) (cancel_pending user m)

-- A test of the last five minutes.
unfoldable pub is_recent_test : ℕ → ℕ → EmailDelivery → Bool
is_recent_test user now d =
    d.subscriber_id == user && d.kind == DeliveryKind.test && ltb now (d.created_at + 300)

unfoldable pub queue_test : ℕ → Subscriber → Exec RequestError Mailbox Unit
unfolding is_recent_test delivery is_shared
queue_test now u m =
    if not u.verified || u.suppressed
    then (err (http 403), m)
    else if is_shared u.provider || is_empty u.key_ciphertext
    then (err (http 409), m)
    else if any (is_recent_test u.id now) m.deliveries
    then (err (http 429), m)
    else (
      ok tt,
      record m {
        deliveries =
            m.deliveries
            ++ (delivery m.next_uuid u.id DeliveryKind.test (of_test m.next_uuid) [] [] now ∷ []);
        next_uuid = m.next_uuid + 1;
      },
    )

unfoldable pub opted_out : Subscriber → Subscriber
opted_out u = record u { alerts = false; recap = false; next_recap = none }

unfoldable pub unsubscribe_found : Option Subscriber → Exec RequestError Mailbox Unit
unfolding opted_out set_user cancel_pending
unsubscribe_found none m = (err (http 404), m)
unsubscribe_found (some u) m = (ok tt, cancel_pending u.id (set_user u.id opted_out m))

pub data PreferenceCall : Type 0 where
  get_settings : Caller → Text → PreferenceCall
  put_settings : Caller → Settings → PreferenceCall
  put_provider : Caller → ProviderBody → PreferenceCall
  delete_provider : Caller → PreferenceCall
  test_provider : Caller → PreferenceCall
  unsubscribe : Text → PreferenceCall

-- The clocks of the zones, the names that ZoneInfo takes, and encrypt.
pub record Surroundings : Type 0 where
  pub zones : Text → Zone
  pub is_zone : Text → Bool
  pub encrypt : Text → Option Text

unfoldable pub handle : Surroundings → Fresh → ℕ → PreferenceCall → Exec RequestError Mailbox Unit
unfolding admit settle_settings encrypted_hook store_provider remove_provider queue_test
    unsubscribe_found
handle env f now (get_settings who timezone) =
    guard (env.is_zone timezone) (http 422) >> admit f who timezone >> pure tt
handle env f now (put_settings who s) =
    guard (env.is_zone s.timezone) (http 422)
    >> (admit f who (codes "UTC") >>= settle_settings env.zones now s who)
handle env f now (put_provider who b) =
    admit f who (codes "UTC")
    >> store_provider f b.sender who.uid (env.encrypt b.api_key)
        (encrypted_hook env.encrypt b.webhook_secret)
handle env f now (delete_provider who) =
    admit f who (codes "UTC") >> modify (remove_provider f who.uid)
handle env f now (test_provider who) = admit f who (codes "UTC") >>= queue_test now
handle env f now (unsubscribe token) =
    gets (λ m. find (λ u. u.unsubscribe_token == token) m.subscribers) >>= unsubscribe_found

-- The request, in its transaction.
unfoldable pub respond : Surroundings → Fresh → ℕ → PreferenceCall → Exec RequestError Mailbox Unit
unfolding handle or_undone
respond env f now c m = or_undone m (handle env f now c m)
