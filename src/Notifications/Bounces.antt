-- ===== src/Notifications/Bounces.antt =====
-- What a bounce or a complaint that app/notifications/api.py webhook receives means for the deliveries that
-- app/notifications/worker.py NotificationWorker.claim grants afterwards.
use job_ping.Base.{
  ℕ, ◌≡◌, refl, ap, ◌⊎◌, inl, inr, true, false, ◌&&◌, Option, some, List, [], ◌∷◌, arith, find, map,
  any, All, Text, codes, ◌==◌, nat_eq, nat_beq_iff, option_eq, list_eq, if◌then◌else◌, Bool-cases,
  ok, elem, Eq,
}
use job_ping.Notifications.Models.{
  Account, EmailDelivery, Mailbox, Subscriber, DeliveryStatus, delivery_status_eq,
  DeliveryStatus-discrete,
}
use job_ping.Notifications.Recaps.{replace}
use job_ping.Notifications.Claims.{Services, Claimed, put_delivery, set_user, change_user}
use job_ping.Notifications.Webhook.{
  WebhookEvent, WebhookRequest, Callbacks, cancelled_if_pending, cancel_pending, is_mail,
  was_sent_to, suppress, bounce, mark_bounced, is_final, apply_event, record_event, or_undone,
  handle_mail, handle_event, receive, receive_for, webhook, signed_event, connection_of,
}
use job_ping.Notifications.ClaimLoop.{claim_delivery}
use job_ping.Notifications.Spared.{is_other, claim_spares}
use job_ping.Notifications.Silence.{
  IsSuppressed, IsStill, IsSilenced, final-active, webhook-IsSilenced,
}

-- A request reports, for the first time, a bounce or a complaint of a mail that went to the address that its
-- subscriber still has.
pub record IsBounce (env : Callbacks) (connection : Text) (r : WebhookRequest) (m : Mailbox)
    (d : EmailDelivery) (u : Subscriber) : Type 0 where
  pub account : Account
  pub secret : Text
  pub event_id : Text
  pub event : WebhookEvent
  pub payload : Text
  pub is_connected : connection_of env connection m.subscribers ≡ ok (account, secret)
  pub is_signed : signed_event env connection secret r ≡ ok (event_id, event)
  pub is_new : elem event_id m.webhook_events ≡ false
  pub is_kind :
      (event.type ≡ some (codes "email.bounced")) ⊎ (event.type ≡ some (codes "email.complained"))
  pub is_found : find (is_mail account event.email_id) m.deliveries ≡ some d
  pub is_of : find (λ u. u.id == d.subscriber_id) m.subscribers ≡ some u
  pub has_payload : d.payload ≡ some payload
  pub is_address : env.sent_to payload ≡ some (u.email ∷ [])

All-suppressed :
    (user : ℕ) (us : List Subscriber)
    → All (IsSuppressed user) (change_user user (λ u. record u { suppressed = true }) us)
unfolding change_user
All-suppressed user [] = tt
All-suppressed user (u ∷ us) = (ground (arith, nat_beq_iff u.id user), All-suppressed user us)

cancelled-active :
    (user : ℕ) (d : EmailDelivery)
    → (cancelled_if_pending user d).subscriber_id ≡ user
    → ((cancelled_if_pending user d).status == DeliveryStatus.pending) ≡ false
unfolding cancelled_if_pending DeliveryStatus-discrete
cancelled-active user d =
    elim (Bool-cases (d.subscriber_id == user && d.status == DeliveryStatus.pending)) [
      | inl t ↦ rw t (λ e. refl)
      | inr t ↦ rw t (λ e. ground (arith, nat_beq_iff d.subscriber_id user))
    ]

one-IsStill :
    (user : ℕ) (new d : EmailDelivery)
    → is_final new.status ≡ true
    → IsStill user new.id
        (if (cancelled_if_pending user d).id == new.id then new else cancelled_if_pending user d)
one-IsStill user new d f = elim (Bool-cases ((cancelled_if_pending user d).id == new.id)) [
  | inl t ↦ rw t (λ e. final-active new.status f, λ e. f)
  | inr t ↦ rw t (
    cancelled-active user d,
    λ e. absurd (ground (arith, nat_beq_iff (cancelled_if_pending user d).id new.id)),
  )
]

-- No mail to the subscriber is pending; the one mail is to have its new status yet.
none-pending :
    (user : ℕ) (new : EmailDelivery) (ds : List EmailDelivery)
    → is_final new.status ≡ true
    → All (IsStill user new.id) (replace new (map (cancelled_if_pending user) ds))
unfolding replace
none-pending user new [] f = tt
none-pending user new (d ∷ ds) f = (one-IsStill user new d f, none-pending user new ds f)

bounce-IsSilenced :
    (env : Callbacks) (s : DeliveryStatus) (d : EmailDelivery) (m : Mailbox)
    → is_final s ≡ true
    → IsSilenced d.subscriber_id d.id (mark_bounced env s d (some true) m).1
unfolding mark_bounced suppress set_user cancel_pending put_delivery
bounce-IsSilenced env s d m f = record {
  suppressed = All-suppressed d.subscriber_id m.subscribers;
  still = none-pending d.subscriber_id (record d { status = s }) m.deliveries f;
}

equal-true : {X : Type 0} ⦃q : Eq X⦄ {x y : X} → x ≡ y → (x == y) ≡ true
equal-true ⦃q⦄ {x} {y} e = (q.equals_iff x y).1 e

sent-true :
    (env : Callbacks) (x : Option Text) (o : Option Subscriber) (p : Text) (u : Subscriber)
    → o ≡ some u
    → x ≡ some p
    → env.sent_to p ≡ some (u.email ∷ [])
    → was_sent_to env x o ≡ some true
unfolding was_sent_to
sent-true env x o p u f q a = rw (f, q) (ap some (equal-true a))

handled-bounce :
    (env : Callbacks) (type : Option Text) (d : EmailDelivery) (u : Subscriber) (m before : Mailbox)
    (p : Text)
    → (type ≡ some (codes "email.bounced")) ⊎ (type ≡ some (codes "email.complained"))
    → find (λ u. u.id == d.subscriber_id) m.subscribers ≡ some u
    → d.payload ≡ some p
    → env.sent_to p ≡ some (u.email ∷ [])
    → IsSilenced d.subscriber_id d.id (or_undone before (apply_event env type d m)).1
unfolding apply_event bounce or_undone mark_bounced is_final DeliveryStatus-discrete
handled-bounce env type d u m before p k f q a =
    let sent =
      sent-true env d.payload (find (λ u. u.id == d.subscriber_id) m.subscribers) p u f q a in
    elim k [
      | inl e ↦ rw (e, sent) (bounce-IsSilenced env DeliveryStatus.bounced d m refl)
      | inr e ↦ rw (e, sent) (bounce-IsSilenced env DeliveryStatus.complained d m refl)
    ]

received-bounce :
    (env : Callbacks) (c : Text) (r : WebhookRequest) (m : Mailbox) (d : EmailDelivery)
    (u : Subscriber)
    → IsBounce env c r m d u
    → IsSilenced d.subscriber_id d.id (webhook env c r m).1
unfolding webhook receive_for receive handle_event handle_mail record_event
received-bounce env c r m d u b =
    rw (b.is_connected, b.is_signed, b.is_new, b.is_found)
      (handled-bounce env b.event.type d u (record_event b.event_id m) m b.payload b.is_kind b.is_of
        b.has_payload b.is_address)

-- The webhook's requests, one after the other.
unfoldable pub receive_reports : Callbacks → List (Text × WebhookRequest) → Mailbox → Mailbox
unfolding webhook
receive_reports env [] m = m
receive_reports env (r ∷ rs) m = receive_reports env rs (webhook env r.0 r.1 m).1

all-IsSilenced :
    (user mail : ℕ) (env : Callbacks) (rs : List (Text × WebhookRequest)) (m : Mailbox)
    → IsSilenced user mail m
    → IsSilenced user mail (receive_reports env rs m)
unfolding receive_reports
all-IsSilenced user mail env [] m h = h
all-IsSilenced user mail env (r ∷ rs) m h =
    all-IsSilenced user mail env rs (webhook env r.0 r.1 m).1
      (webhook-IsSilenced user mail env r.0 r.1 m h)

-- After a bounce or a complaint of a mail that went to the address that its subscriber still has, and any further
-- requests to the webhook, the subscriber is suppressed, no mail to them is pending, and that mail stays bounced or
-- complained of.
pub bounce_silences :
    (env : Callbacks) (c : Text) (r : WebhookRequest) (m : Mailbox) (d : EmailDelivery)
    (u : Subscriber) (rs : List (Text × WebhookRequest))
    → IsBounce env c r m d u
    → IsSilenced d.subscriber_id d.id (receive_reports env rs (webhook env c r m).1)
bounce_silences env c r m d u rs b =
    all-IsSilenced d.subscriber_id d.id env rs (webhook env c r m).1
      (received-bounce env c r m d u b)

-- After that, a delivery that claim grants is a mail to somebody else.
pub no_claim_after_bounce :
    (env : Callbacks) (c : Text) (r : WebhookRequest) (m : Mailbox) (d : EmailDelivery)
    (u : Subscriber) (rs : List (Text × WebhookRequest)) (services : Services) (now : ℕ)
    (n : Mailbox) (granted : Claimed)
    → IsBounce env c r m d u
    → claim_delivery services now (receive_reports env rs (webhook env c r m).1)
      ≡ some (n, some granted)
    → any
        (is_other granted.delivery_id d.subscriber_id)
        (receive_reports env rs (webhook env c r m).1).deliveries
      ≡ true
no_claim_after_bounce env c r m d u rs services now n granted b h =
    claim_spares d.subscriber_id services now (receive_reports env rs (webhook env c r m).1) n
      granted (bounce_silences env c r m d u rs b).suppressed h
