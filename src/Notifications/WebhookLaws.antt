-- ===== src/Notifications/WebhookLaws.antt =====
-- That app/notifications/api.py webhook may be asked again: the provider repeats an event until it is answered.
use job_ping.Base.{
  ℕ, ◌≡◌, refl, ◌⊎◌, inl, inr, Bool, true, false, Option, none, some, List, [], ◌∷◌, arith, find,
  any, Text, codes, elem, ◌==◌, nat_eq, list_eq, option_eq, Bool-cases, Result, ok, err,
  list_beq_iff,
}
use job_ping.Notifications.Models.{Account, EmailDelivery, Mailbox, Subscriber, DeliveryStatus}
use job_ping.Notifications.Claims.{put_delivery, set_user, change_user}
use job_ping.Notifications.Webhook.{
  WebhookEvent, WebhookRequest, Callbacks, WebhookStatus, handled, duplicate, unrelated,
  RequestError, cancel_pending, secret_of_user, connection_of, signed_event, is_mail, was_sent_to,
  suppress, bounce, mark_bounced, is_final, deliver, apply_event, record_event, or_undone,
  handle_mail, handle_event, receive, receive_for, webhook, is_sending_for,
}
use mathlib.Core.Path.{subst}

-- The answer to an event that was answered before.
unfoldable pub again : WebhookStatus → WebhookStatus
again handled = duplicate
again duplicate = duplicate
again unrelated = unrelated

-- What a handled event leaves: the recorded events, and the secrets of all connections.
pub record Settles (env : Callbacks) (m n : Mailbox) : Type 0 where
  pub recorded : n.webhook_events ≡ m.webhook_events
  pub connected : (c : Text) → connection_of env c n.subscribers ≡ connection_of env c m.subscribers

suppressed-secret :
    (env : Callbacks) (user : ℕ) (c : Text) (us : List Subscriber)
    → secret_of_user env
        (find (λ u. u.webhook_id == c) (change_user user (λ u. record u { suppressed = true }) us))
      ≡ secret_of_user env (find (λ u. u.webhook_id == c) us)
unfolding change_user secret_of_user
suppressed-secret env user c [] = refl
suppressed-secret env user c (u ∷ us) = ground (arith, suppressed-secret env user c us)

suppress-Settles :
    (env : Callbacks) (user : ℕ) (b : Bool) (m : Mailbox) → Settles env m (suppress user b m)
unfolding suppress set_user cancel_pending connection_of
suppress-Settles env user false m = record { recorded = refl; connected = λ c. refl }
suppress-Settles env user true m = record {
  recorded = refl;
  connected = λ c. rw (suppressed-secret env user c m.subscribers) refl;
}

put-Settles :
    (env : Callbacks) (d : EmailDelivery) (m p : Mailbox)
    → Settles env m p
    → Settles env m (put_delivery d p)
unfolding put_delivery
put-Settles env d m p k = record { recorded = k.recorded; connected = k.connected }

bounce-Settles :
    (env : Callbacks) (s : DeliveryStatus) (d : EmailDelivery) (o : Option Bool) (m n : Mailbox)
    (t : WebhookStatus)
    → mark_bounced env s d o m ≡ (ok t, n)
    → (t ≡ handled) × Settles env m n
unfolding mark_bounced
bounce-Settles env s d none m n t h = absurd (ground arith)
bounce-Settles env s d (some b) m n t h =
    let e : put_delivery (record d { status = s }) (suppress d.subscriber_id b m) ≡ n =
      ground arith in
    (
      ground arith,
      subst (Settles env m) e (
          put-Settles env (record d { status = s }) m (suppress d.subscriber_id b m)
            (suppress-Settles env d.subscriber_id b m)),
    )

deliver-Settles : (env : Callbacks) (d : EmailDelivery) (m : Mailbox) → Settles env m (deliver d m)
unfolding deliver
deliver-Settles env d m = elim (Bool-cases (is_final d.status)) [
  | inl e ↦ rw e (record { recorded = refl; connected = λ c. refl })
  | inr e ↦ rw e (
      put-Settles env (record d { status = DeliveryStatus.delivered }) m m
        (record { recorded = refl; connected = λ c. refl }))
]

settled-at :
    (env : Callbacks) (m p n : Mailbox) (s t : WebhookStatus)
    → Settles env m p
    → Path (Result RequestError WebhookStatus × Mailbox) (ok s, p) (ok t, n)
    → (t ≡ s) × Settles env m n
settled-at env m p n s t k h = (ground arith, subst (Settles env m) (ground arith) k)

apply-Settles :
    (env : Callbacks) (type : Option Text) (d : EmailDelivery) (m n : Mailbox) (t : WebhookStatus)
    → apply_event env type d m ≡ (ok t, n)
    → (t ≡ handled) × Settles env m n
unfolding apply_event bounce
apply-Settles env type d m n t =
    let o = was_sent_to env d.payload (find (λ u. u.id == d.subscriber_id) m.subscribers) in
    elim (Bool-cases (type == some (codes "email.bounced"))) [
      | inl e ↦ λ h. bounce-Settles env DeliveryStatus.bounced d o m n t (rw e at h)
      | inr e ↦ elim (Bool-cases (type == some (codes "email.complained"))) [
        | inl k ↦ λ h. bounce-Settles env DeliveryStatus.complained d o m n t (rw (e, k) at h)
        | inr k ↦ elim (Bool-cases (type == some (codes "email.delivered"))) [
          | inl l ↦ λ h.
              settled-at env m (deliver d m) n handled t (deliver-Settles env d m)
                (rw (e, k, l) at h)
          | inr l ↦ λ h.
              settled-at env m m n handled t (record { recorded = refl; connected = λ c. refl })
                (rw (e, k, l) at h)
        ]
      ]
    ]

-- An event that is answered: nothing is written, or it is recorded and the connections stay.
Answered : Callbacks → Text → WebhookStatus → Mailbox → Mailbox → Type 0
Answered env id t m n =
    ((again t ≡ t) × (n ≡ m))
    ⊎ ((t ≡ handled)
        × (elem id n.webhook_events ≡ true)
        × ((c : Text) → connection_of env c n.subscribers ≡ connection_of env c m.subscribers))

undone-inv :
    (m n : Mailbox) (t : WebhookStatus) (r : Result RequestError WebhookStatus × Mailbox)
    → or_undone m r ≡ (ok t, n)
    → r ≡ (ok t, n)
unfolding or_undone
undone-inv m n t (ok s, p) h = h
undone-inv m n t (err e, p) h = absurd (ground arith)

refused :
    {m n : Mailbox} {e : RequestError} {t : WebhookStatus}
    → ¬ Path (Result RequestError WebhookStatus × Mailbox) (err e, m) (ok t, n)
refused h = ground arith

unwritten :
    (m n : Mailbox) (s t : WebhookStatus)
    → again s ≡ s
    → Path (Result RequestError WebhookStatus × Mailbox) (ok s, m) (ok t, n)
    → (again t ≡ t) × (n ≡ m)
unwritten m n s t k h = (subst (λ (x : WebhookStatus). again x ≡ x) (ground arith) k, ground arith)

elem-head : (id : Text) (ids : List Text) → elem id (id ∷ ids) ≡ true
unfolding elem
elem-head id ids = ground (arith, list_beq_iff id id)

mail-Answered :
    (env : Callbacks) (a : Account) (id : Text) (type : Option Text) (o : Option EmailDelivery)
    (m n : Mailbox) (t : WebhookStatus)
    → handle_mail env a id type o m ≡ (ok t, n)
    → Answered env id t m n
unfolding Answered handle_mail record_event again
mail-Answered env a id type none m n t h = elim (Bool-cases (any (is_sending_for a) m.deliveries)) [
  | inl k ↦ absurd (refused (rw k at h))
  | inr k ↦ inl (unwritten m n unrelated t refl (rw k at h))
]
mail-Answered env a id type (some d) m n t h =
    let (k, w) =
      apply-Settles env type d (record_event id m) n t
        (undone-inv m n t (apply_event env type d (record_event id m)) h) in
    inr (k, rw (w.recorded) (elem-head id m.webhook_events), w.connected)

event-Answered :
    (env : Callbacks) (a : Account) (id : Text) (e : WebhookEvent) (m n : Mailbox)
    (t : WebhookStatus)
    → handle_event env a id e m ≡ (ok t, n)
    → Answered env id t m n
unfolding Answered handle_event again
event-Answered env a id e m n t = elim (Bool-cases (elem id m.webhook_events)) [
  | inl k ↦ λ h. inl (unwritten m n duplicate t refl (rw k at h))
  | inr k ↦ λ h.
      mail-Answered env a id e.type (find (is_mail a e.email_id) m.deliveries) m n t (rw k at h)
]

again-handle :
    (env : Callbacks) (a : Account) (id : Text) (e : WebhookEvent) (m n : Mailbox)
    (t : WebhookStatus)
    → handle_event env a id e m ≡ (ok t, n)
    → (handle_event env a id e n ≡ (ok (again t), n))
      × ((c : Text) → connection_of env c n.subscribers ≡ connection_of env c m.subscribers)
unfolding handle_event again Answered
again-handle env a id e m n t h = elim (event-Answered env a id e m n t h) [
  | inl (k, same) ↦ rw (k, same) (rw same at h, λ c. refl)
  | inr (k, seen, c) ↦ (rw (seen, k) refl, c)
]

again-receive :
    (env : Callbacks) (a : Account) (x : Result RequestError (Text × WebhookEvent)) (m n : Mailbox)
    (t : WebhookStatus)
    → receive env a x m ≡ (ok t, n)
    → (receive env a x n ≡ (ok (again t), n))
      × ((c : Text) → connection_of env c n.subscribers ≡ connection_of env c m.subscribers)
unfolding receive
again-receive env a (err e) m n t h = absurd (refused h)
again-receive env a (ok (id, e)) m n t h = again-handle env a id e m n t h

again-receive_for :
    (env : Callbacks) (c : Text) (r : WebhookRequest) (x : Result RequestError (Account × Text))
    (m n : Mailbox) (t : WebhookStatus)
    → receive_for env c r x m ≡ (ok t, n)
    → (receive_for env c r x n ≡ (ok (again t), n))
      × ((c : Text) → connection_of env c n.subscribers ≡ connection_of env c m.subscribers)
unfolding receive_for
again-receive_for env c r (err e) m n t h = absurd (refused h)
again-receive_for env c r (ok (a, secret)) m n t h =
    again-receive env a (signed_event env c secret r) m n t h

-- A request that the webhook answers, sent again, is answered and changes nothing: as a duplicate where it was
-- handled, and as before where it was a duplicate or unrelated.
pub webhook-again :
    (env : Callbacks) (connection : Text) (r : WebhookRequest) (m n : Mailbox) (t : WebhookStatus)
    → webhook env connection r m ≡ (ok t, n)
    → webhook env connection r n ≡ (ok (again t), n)
unfolding webhook
webhook-again env connection r m n t h =
    let (k, c) =
      again-receive_for env connection r (connection_of env connection m.subscribers) m n t h in
    rw (c connection) k
