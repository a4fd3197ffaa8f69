-- ===== src/Notifications/Webhook.antt =====
-- app/notifications/api.py cancel_pending and webhook: what the provider reports of a mail that was sent.
-- A refusal is raised before anything is written.
use job_ping.Base.{
  ℕ, Bool, true, false, ◌&&◌, ◌||◌, Option, none, some, List, [], ◌∷◌, ◌++◌, map, length, find, any,
  Text, codes, is_empty, ltb, if◌then◌else◌, ◌==◌, elem, nat_eq, list_eq, option_eq, Exec, Result,
  ok, err,
}
use job_ping.Notifications.Models.{
  Account, EmailDelivery, Mailbox, Subscriber, Provider, DeliveryStatus, account_eq,
  delivery_status_eq, shared_account, own,
}
use job_ping.Notifications.Claims.{put_delivery, set_user}

-- What the webhook reads of the event that the provider signed: its `type` and its `email_id`.
pub record WebhookEvent : Type 0 where
  pub type : Option Text
  pub email_id : Option Text

-- A request, in the chunks of its stream.
pub record WebhookRequest : Type 0 where
  pub chunks : List Text
  pub headers : List (Text × Text)

-- RESEND_WEBHOOK_SECRET, decrypt (which may raise), Webhook.verify of the svix library, and the `to` of a
-- payload.
pub record Callbacks : Type 0 where
  pub shared_secret : Option Text
  pub decrypt : Text → Option Text
  pub verify : Text → Text → List (Text × Text) → Option WebhookEvent
  pub sent_to : Text → Option (List Text)

pub data WebhookStatus : Type 0 where
  handled : WebhookStatus
  duplicate : WebhookStatus
  unrelated : WebhookStatus

-- An HTTPException with its status code, or another exception.
pub data RequestError : Type 0 where
  http : ℕ → RequestError
  crashed : RequestError

unfoldable pub cancelled_if_pending : ℕ → EmailDelivery → EmailDelivery
cancelled_if_pending user d =
    if d.subscriber_id == user && d.status == DeliveryStatus.pending
    then record d { status = DeliveryStatus.cancelled }
    else d

unfoldable pub cancel_pending : ℕ → Mailbox → Mailbox
unfolding cancelled_if_pending
cancel_pending user m = record m { deliveries = map (cancelled_if_pending user) m.deliveries }

unfoldable pub secret_of : Account → Option Text → Result RequestError (Account × Text)
secret_of account none = err (http 503)
secret_of account (some s) = if is_empty s then err (http 503) else ok (account, s)

unfoldable pub own_secret :
    Callbacks → ℕ → Provider → Option Text → Result RequestError (Account × Text)
unfolding secret_of
own_secret env user Provider.byok (some c) =
    if is_empty c
    then err (http 404)
    else elim (env.decrypt c) [ none ↦ err crashed | some s ↦ secret_of (own user) (some s) ]
own_secret env user p c = err (http 404)

unfoldable pub secret_of_user : Callbacks → Option Subscriber → Result RequestError (Account × Text)
unfolding own_secret
secret_of_user env none = err (http 404)
secret_of_user env (some u) = own_secret env u.id u.provider u.webhook_ciphertext

unfoldable pub connection_of :
    Callbacks → Text → List Subscriber → Result RequestError (Account × Text)
unfolding secret_of secret_of_user
connection_of env connection us =
    if connection == codes "shared"
    then secret_of shared_account env.shared_secret
    else secret_of_user env (find (λ u. u.webhook_id == connection) us)

-- The body of a request, unless it is longer than 256 KiB.
unfoldable pub read_chunks : Text → List Text → Option Text
read_chunks raw [] = some raw
read_chunks raw (c ∷ cs) =
    let rest = read_chunks (raw ++ c) cs in if ltb 262144 (length (raw ++ c)) then none else rest

unfoldable pub header : Text → List (Text × Text) → Option Text
header name [] = none
header name (h ∷ hs) = let rest = header name hs in if h.0 == name then some h.1 else rest

-- The id that is recorded, and the event.
unfoldable pub signed_event :
    Callbacks → Text → Text → WebhookRequest → Result RequestError (Text × WebhookEvent)
unfolding read_chunks header
signed_event env connection secret r = elim (read_chunks [] r.chunks) [
  | none ↦ err (http 413)
  | some raw ↦ elim (env.verify secret raw r.headers) [
    | none ↦ err (http 400)
    | some e ↦ elim (header (codes "svix-id") r.headers) [
      | none ↦ err crashed
      | some id ↦ ok (connection ++ codes ":" ++ id, e)
    ]
  ]
]

-- The mail of an account that the event is about. Where it names none, `provider_id IS NULL` is asked.
unfoldable pub is_mail : Account → Option Text → EmailDelivery → Bool
is_mail account id d = d.account == some account && d.provider_id == id

unfoldable pub is_sending_for : Account → EmailDelivery → Bool
is_sending_for account d = d.account == some account && d.status == DeliveryStatus.sending

unfoldable pub is_final : DeliveryStatus → Bool
is_final s = s == DeliveryStatus.bounced || s == DeliveryStatus.complained

-- `none` is an attribute of a recipient who is missing.
unfoldable pub was_sent_to : Callbacks → Option Text → Option Subscriber → Option Bool
was_sent_to env none u = some false
was_sent_to env (some p) none = none
was_sent_to env (some p) (some u) = some (env.sent_to p == some (u.email ∷ []))

unfoldable pub suppress : ℕ → Bool → Mailbox → Mailbox
unfolding cancel_pending set_user
suppress user false m = m
suppress user true m = cancel_pending user (set_user user (λ u. record u { suppressed = true }) m)

unfoldable pub mark_bounced :
    Callbacks
    → DeliveryStatus
    → EmailDelivery
    → Option Bool
    → Exec RequestError Mailbox WebhookStatus
unfolding suppress put_delivery
mark_bounced env status d none m = (err crashed, m)
mark_bounced env status d (some b) m =
    (ok handled, put_delivery (record d { status = status }) (suppress d.subscriber_id b m))

unfoldable pub bounce :
    Callbacks → DeliveryStatus → EmailDelivery → Exec RequestError Mailbox WebhookStatus
unfolding was_sent_to mark_bounced
bounce env status d m =
    mark_bounced env status d
      (was_sent_to env d.payload (find (λ u. u.id == d.subscriber_id) m.subscribers)) m

unfoldable pub deliver : EmailDelivery → Mailbox → Mailbox
unfolding is_final put_delivery
deliver d m =
    if is_final d.status then m else put_delivery (record d { status = DeliveryStatus.delivered }) m

unfoldable pub apply_event :
    Callbacks → Option Text → EmailDelivery → Exec RequestError Mailbox WebhookStatus
unfolding bounce deliver
apply_event env type d m =
    if type == some (codes "email.bounced")
    then bounce env DeliveryStatus.bounced d m
    else if type == some (codes "email.complained")
    then bounce env DeliveryStatus.complained d m
    else if type == some (codes "email.delivered")
    then (ok handled, deliver d m)
    else (ok handled, m)

unfoldable pub record_event : Text → Mailbox → Mailbox
record_event id m = record m { webhook_events = id ∷ m.webhook_events }

-- A crash undoes the record of the event as well.
unfoldable pub or_undone :
    {A : Type 0} → Mailbox → Result RequestError A × Mailbox → Result RequestError A × Mailbox
or_undone m (ok s, n) = (ok s, n)
or_undone m (err e, n) = (err e, m)

unfoldable pub handle_mail :
    Callbacks
    → Account
    → Text
    → Option Text
    → Option EmailDelivery
    → Exec RequestError Mailbox WebhookStatus
unfolding is_sending_for apply_event record_event or_undone
handle_mail env account id type none m =
    if any (is_sending_for account) m.deliveries then (err (http 503), m) else (ok unrelated, m)
handle_mail env account id type (some d) m =
    or_undone m (apply_event env type d (record_event id m))

unfoldable pub handle_event :
    Callbacks → Account → Text → WebhookEvent → Exec RequestError Mailbox WebhookStatus
unfolding is_mail handle_mail
handle_event env account id e m =
    if elem id m.webhook_events
    then (ok duplicate, m)
    else handle_mail env account id e.type (find (is_mail account e.email_id) m.deliveries) m

unfoldable pub receive :
    Callbacks
    → Account
    → Result RequestError (Text × WebhookEvent)
    → Exec RequestError Mailbox WebhookStatus
unfolding handle_event
receive env account (err e) m = (err e, m)
receive env account (ok (id, e)) m = handle_event env account id e m

unfoldable pub receive_for :
    Callbacks
    → Text
    → WebhookRequest
    → Result RequestError (Account × Text)
    → Exec RequestError Mailbox WebhookStatus
unfolding signed_event receive
receive_for env connection r (err e) m = (err e, m)
receive_for env connection r (ok (account, secret)) m =
    receive env account (signed_event env connection secret r) m

unfoldable pub webhook : Callbacks → Text → WebhookRequest → Exec RequestError Mailbox WebhookStatus
unfolding connection_of receive_for
webhook env connection r m =
    receive_for env connection r (connection_of env connection m.subscribers) m
