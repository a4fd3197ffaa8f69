-- ===== src/Notifications/Silence.antt =====
-- That a subscriber whose address bounced, or who complained, is left alone, as app/notifications/api.py webhook and
-- app/notifications/worker.py NotificationWorker.claim have it.
use job_ping.Base.{
  ℕ, ◌≡◌, refl, inl, inr, Bool, true, false, ◌&&◌, Option, none, some, List, [], ◌∷◌, arith, find,
  find-All, map, any, All, Text, elem, codes, ◌==◌, nat_eq, option_eq, list_eq, Bool-cases, Result,
  ok, err,
}
use job_ping.Notifications.Models.{
  Account, DeliveryStatus-discrete, EmailDelivery, Mailbox, Subscriber, DeliveryStatus,
  delivery_status_eq,
}
use job_ping.Notifications.Recaps.{replace}
use job_ping.Notifications.Claims.{put_delivery, set_user, change_user}
use job_ping.Notifications.Webhook.{
  WebhookEvent, WebhookRequest, Callbacks, WebhookStatus, RequestError, cancelled_if_pending,
  cancel_pending, is_mail, was_sent_to, suppress, bounce, mark_bounced, is_final, deliver,
  apply_event, record_event, or_undone, handle_mail, handle_event, is_sending_for, signed_event,
  connection_of, receive, receive_for, webhook,
}

-- A subscriber is suppressed, none of the mails to them is pending, and one mail has bounced or was complained of.
abbrev pub IsSuppressed : ℕ → Subscriber → Type 0
IsSuppressed user u = u.id ≡ user → u.suppressed ≡ true

abbrev pub IsStill : ℕ → ℕ → EmailDelivery → Type 0
IsStill user mail d =
    (d.subscriber_id ≡ user → (d.status == DeliveryStatus.pending) ≡ false)
    × (d.id ≡ mail → is_final d.status ≡ true)

pub record IsSilenced (user mail : ℕ) (m : Mailbox) : Type 0 where
  pub suppressed : All (IsSuppressed user) m.subscribers
  pub still : All (IsStill user mail) m.deliveries

pub final-active : (s : DeliveryStatus) → is_final s ≡ true → (s == DeliveryStatus.pending) ≡ false
unfolding is_final
final-active s h = ground (arith, delivery_status_eq.equals_iff s DeliveryStatus.pending)

module _ (user mail : ℕ) where
  suppressed-All :
      (v : ℕ) (us : List Subscriber)
      → All (IsSuppressed user) us
      → All (IsSuppressed user) (change_user v (λ u. record u { suppressed = true }) us)
  unfolding change_user
  suppressed-All v [] h = tt
  suppressed-All v (u ∷ us) h = ground (arith, suppressed-All v us)

  is_final-pending :
      (s : DeliveryStatus) → (s == DeliveryStatus.pending) ≡ true → is_final s ≡ false
  unfolding is_final
  is_final-pending s h = ground (arith, delivery_status_eq.equals_iff s DeliveryStatus.pending)

  cancelled-IsStill :
      (v : ℕ) (d : EmailDelivery)
      → IsStill user mail d
      → IsStill user mail (cancelled_if_pending v d)
  unfolding cancelled_if_pending DeliveryStatus-discrete
  cancelled-IsStill v d h =
      elim (Bool-cases (d.subscriber_id == v && d.status == DeliveryStatus.pending)) [
        | inl t ↦ rw t (λ k. refl, λ k. absurd (ground (arith, is_final-pending d.status)))
        | inr t ↦ rw t h
      ]

  cancelled-All :
      (v : ℕ) (ds : List EmailDelivery)
      → All (IsStill user mail) ds
      → All (IsStill user mail) (map (cancelled_if_pending v) ds)
  cancelled-All v [] h = tt
  cancelled-All v (d ∷ ds) h = (cancelled-IsStill v d h.0, cancelled-All v ds h.1)

  replaced-All :
      (d : EmailDelivery) (ds : List EmailDelivery)
      → IsStill user mail d
      → All (IsStill user mail) ds
      → All (IsStill user mail) (replace d ds)
  unfolding replace
  replaced-All d [] k h = tt
  replaced-All d (e ∷ ds) k h = elim (Bool-cases (e.id == d.id)) [
    | inl t ↦ rw t (k, replaced-All d ds k h.1)
    | inr t ↦ rw t (h.0, replaced-All d ds k h.1)
  ]

  suppress-IsSilenced :
      (v : ℕ) (b : Bool) (m : Mailbox)
      → IsSilenced user mail m
      → IsSilenced user mail (suppress v b m)
  unfolding suppress set_user cancel_pending
  suppress-IsSilenced v false m h = h
  suppress-IsSilenced v true m h = record {
    suppressed = suppressed-All v m.subscribers h.suppressed;
    still = cancelled-All v m.deliveries h.still;
  }

  put-IsSilenced :
      (d : EmailDelivery) (m : Mailbox)
      → IsStill user mail d
      → IsSilenced user mail m
      → IsSilenced user mail (put_delivery d m)
  unfolding put_delivery
  put-IsSilenced d m k h = record {
    suppressed = h.suppressed;
    still = replaced-All d m.deliveries k h.still;
  }

  bounced-IsSilenced :
      (env : Callbacks) (s : DeliveryStatus) (d : EmailDelivery) (o : Option Bool) (m : Mailbox)
      → is_final s ≡ true
      → IsSilenced user mail m
      → IsSilenced user mail (mark_bounced env s d o m).1
  unfolding mark_bounced
  bounced-IsSilenced env s d none m f h = h
  bounced-IsSilenced env s d (some b) m f h =
      put-IsSilenced (record d { status = s }) (suppress d.subscriber_id b m)
        (λ k. final-active s f, λ k. f) (suppress-IsSilenced d.subscriber_id b m h)

  deliver-IsSilenced :
      (d : EmailDelivery) (m : Mailbox)
      → IsStill user mail d
      → IsSilenced user mail m
      → IsSilenced user mail (deliver d m)
  unfolding deliver DeliveryStatus-discrete
  deliver-IsSilenced d m k h = elim (Bool-cases (is_final d.status)) [
    | inl t ↦ rw t h
    | inr t ↦ rw t (
        put-IsSilenced (record d { status = DeliveryStatus.delivered }) m
          (λ e. refl, λ e. absurd (ground (arith, k.1 e))) h)
  ]

  apply-IsSilenced :
      (env : Callbacks) (type : Option Text) (d : EmailDelivery) (m : Mailbox)
      → IsStill user mail d
      → IsSilenced user mail m
      → IsSilenced user mail (apply_event env type d m).1
  unfolding apply_event bounce is_final DeliveryStatus-discrete
  apply-IsSilenced env type d m k h =
      let o = was_sent_to env d.payload (find (λ u. u.id == d.subscriber_id) m.subscribers) in
      elim (Bool-cases (type == some (codes "email.bounced"))) [
        | inl e ↦ rw e (bounced-IsSilenced env DeliveryStatus.bounced d o m refl h)
        | inr e ↦ elim (Bool-cases (type == some (codes "email.complained"))) [
          | inl c ↦ rw (e, c) (bounced-IsSilenced env DeliveryStatus.complained d o m refl h)
          | inr c ↦ elim (Bool-cases (type == some (codes "email.delivered"))) [
            | inl l ↦ rw (e, c, l) (deliver-IsSilenced d m k h)
            | inr l ↦ rw (e, c, l) h
          ]
        ]
      ]

  undone-IsSilenced :
      (m : Mailbox) (r : Result RequestError WebhookStatus × Mailbox)
      → IsSilenced user mail m
      → IsSilenced user mail r.1
      → IsSilenced user mail (or_undone m r).1
  unfolding or_undone
  undone-IsSilenced m (ok s, n) h k = k
  undone-IsSilenced m (err e, n) h k = h

  mail-IsSilenced :
      (env : Callbacks) (a : Account) (id : Text) (e : WebhookEvent) (o : Option EmailDelivery)
      (m : Mailbox)
      → find (is_mail a e.email_id) m.deliveries ≡ o
      → IsSilenced user mail m
      → IsSilenced user mail (handle_mail env a id e.type o m).1
  unfolding handle_mail record_event
  mail-IsSilenced env a id e none m f h = elim (Bool-cases (any (is_sending_for a) m.deliveries)) [
    | inl t ↦ rw t h
    | inr t ↦ rw t h
  ]
  mail-IsSilenced env a id e (some d) m f h =
      undone-IsSilenced m (apply_event env e.type d (record_event id m)) h (
        apply-IsSilenced env e.type d (record_event id m)
          (find-All (IsStill user mail) (is_mail a e.email_id) m.deliveries d h.still f).1
          (record { suppressed = h.suppressed; still = h.still }))

  event-IsSilenced :
      (env : Callbacks) (a : Account) (id : Text) (e : WebhookEvent) (m : Mailbox)
      → IsSilenced user mail m
      → IsSilenced user mail (handle_event env a id e m).1
  unfolding handle_event
  event-IsSilenced env a id e m h = elim (Bool-cases (elem id m.webhook_events)) [
    | inl t ↦ rw t h
    | inr t ↦ rw t (mail-IsSilenced env a id e (find (is_mail a e.email_id) m.deliveries) m refl h)
  ]

  receive-IsSilenced :
      (env : Callbacks) (a : Account) (x : Result RequestError (Text × WebhookEvent)) (m : Mailbox)
      → IsSilenced user mail m
      → IsSilenced user mail (receive env a x m).1
  unfolding receive
  receive-IsSilenced env a (err e) m h = h
  receive-IsSilenced env a (ok (id, e)) m h = event-IsSilenced env a id e m h

  receive_for-IsSilenced :
      (env : Callbacks) (c : Text) (r : WebhookRequest) (x : Result RequestError (Account × Text))
      (m : Mailbox)
      → IsSilenced user mail m
      → IsSilenced user mail (receive_for env c r x m).1
  unfolding receive_for
  receive_for-IsSilenced env c r (err e) m h = h
  receive_for-IsSilenced env c r (ok (a, secret)) m h =
      receive-IsSilenced env a (signed_event env c secret r) m h

  pub webhook-IsSilenced :
      (env : Callbacks) (c : Text) (r : WebhookRequest) (m : Mailbox)
      → IsSilenced user mail m
      → IsSilenced user mail (webhook env c r m).1
  unfolding webhook
  webhook-IsSilenced env c r m h =
      receive_for-IsSilenced env c r (connection_of env c m.subscribers) m h
