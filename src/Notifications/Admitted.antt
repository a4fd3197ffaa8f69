-- ===== src/Notifications/Admitted.antt =====
-- app/notifications/api.py subscriber: the row of a caller, made or brought up to date. None of a text column stands as
-- the empty text in `key_ciphertext`.
use job_ping.Base.{
  ℕ, Bool, false, Option, none, some, [], ◌∷◌, ◌++◌, find, any, Text, codes, if◌then◌else◌, ◌==◌,
  nat_eq, list_eq, Exec, ok, err,
}
use job_ping.Notifications.Models.{
  Mailbox, Subscriber, Provider, SenderStatus, delivery_status_eq, delivery_kind_eq,
}
use job_ping.Notifications.Claims.{set_user}
use job_ping.Notifications.Webhook.{RequestError, http, cancel_pending}

-- The caller, as the identity provider has it.
pub record Caller : Type 0 where
  pub uid : ℕ
  pub email : Text
  pub verified : Bool

-- The random texts that a request draws.
pub record Fresh : Type 0 where
  pub token : Text
  pub webhook_id : Text
  pub version : Text

unfoldable pub new_subscriber : Fresh → Caller → Text → Subscriber
new_subscriber f who timezone = record {
  id = who.uid;
  email = who.email;
  verified = who.verified;
  suppressed = false;
  alerts = false;
  recap = false;
  job_types = codes "internship" ∷ codes "new_grad" ∷ [];
  seasons = 2026 ∷ 2027 ∷ [];
  timezone = timezone;
  opted_at = none;
  window_start = none;
  next_recap = none;
  provider = Provider.shared;
  sender = none;
  key_ciphertext = [];
  webhook_id = f.webhook_id;
  unsubscribe_token = f.token;
  webhook_ciphertext = none;
  connection_version = f.version;
  status = SenderStatus.ready;
}

unfoldable pub moved : Fresh → Caller → Subscriber → Subscriber
moved f who u = record u {
  email = who.email;
  alerts = false;
  recap = false;
  opted_at = none;
  window_start = none;
  next_recap = none;
  suppressed = false;
  connection_version = f.version;
  unsubscribe_token = f.token;
}

unfoldable pub with_verified : Caller → Subscriber → Subscriber
with_verified who u = record u { verified = who.verified }

-- The end of `subscriber`: the address is verified, or pending mails are cancelled.
unfoldable pub verify : Caller → Subscriber → Exec RequestError Mailbox Subscriber
unfolding with_verified cancel_pending set_user
verify who u m =
    let n = set_user who.uid (with_verified who) m in
    (ok (with_verified who u), if who.verified then n else cancel_pending who.uid n)

unfoldable pub is_taken : Text → Mailbox → Bool
is_taken email m = any (λ u. u.email == email) m.subscribers

unfoldable pub admit_found :
    Fresh → Caller → Text → Option Subscriber → Exec RequestError Mailbox Subscriber
unfolding new_subscriber moved verify is_taken
admit_found f who timezone none m =
    if is_taken who.email m
    then (err (http 409), m)
    else (let new = new_subscriber f who timezone in
        verify who new (record m { subscribers = m.subscribers ++ (new ∷ []) }))
admit_found f who timezone (some u) m =
    if u.email == who.email
    then verify who u m
    else if is_taken who.email m
    then (err (http 409), m)
    else verify who (moved f who u) (set_user who.uid (moved f who) (cancel_pending who.uid m))

-- `subscriber`
unfoldable pub admit : Fresh → Caller → Text → Exec RequestError Mailbox Subscriber
unfolding admit_found
admit f who timezone m = admit_found f who timezone (find (λ u. u.id == who.uid) m.subscribers) m
