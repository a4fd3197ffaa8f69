-- ===== src/Notifications/UniqueIds.antt =====
-- The unique ids of the deliveries, which the steps of app/notifications/worker.py claim keep.
use job_ping.Base.{
  ℕ, ◌≡◌, refl, Bool, true, false, Option, none, some, List, arith, Text, [], ◌∷◌, ◌==◌, nat_eq,
  codes, nat_beq_iff, Apart, any, sym, ap, ◌∙◌, inl, inr, if◌then◌else◌, Bool-cases,
}
use job_ping.Notifications.Claims.{
  Services, hand_over, attempt_verified, consider, attempt, ClaimVerdict, put_delivery, charged,
  sender_key, mark, body_of, pass_over, lapse, pause, set_user, delayed,
}
use job_ping.Notifications.Models.{
  EmailDelivery, Subscriber, Mailbox, delivery_kind_eq, DeliveryStatus,
}
use job_ping.Notifications.Recaps.{replace}

-- Ids are unique, and a replaced delivery keeps its id.
abbrev pub same_id : EmailDelivery → EmailDelivery → Bool
same_id a b = a.id == b.id

any-replace :
    (x new : EmailDelivery) (ds : List EmailDelivery)
    → any (same_id x) (replace new ds) ≡ any (same_id x) ds
unfolding replace
any-replace x new [] = refl
any-replace x new (d ∷ ds) = ground (arith, any-replace x new ds, nat_beq_iff d.id new.id)

any-id :
    (x y : EmailDelivery) (ds : List EmailDelivery)
    → x.id ≡ y.id
    → any (same_id x) ds ≡ any (same_id y) ds
any-id x y ds e = ap (λ (i : ℕ). any (λ (d : EmailDelivery). i == d.id) ds) e

replaced-Apart :
    (new d : EmailDelivery) (ds : List EmailDelivery)
    → any (same_id d) ds ≡ false
    → any (same_id (if d.id == new.id then new else d)) (replace new ds) ≡ false
replaced-Apart new d ds h = elim (Bool-cases (d.id == new.id)) [
  | inl e ↦
      let same : d.id ≡ new.id = ground (arith, nat_beq_iff d.id new.id) in
      rw e (any-replace new new ds ∙ sym (any-id d new ds same) ∙ h)
  | inr e ↦ rw e (any-replace d new ds ∙ h)
]

pub replace-Apart :
    (new : EmailDelivery) (ds : List EmailDelivery)
    → Apart same_id ds
    → Apart same_id (replace new ds)
unfolding replace
replace-Apart new [] h = tt
replace-Apart new (d ∷ ds) h = (replaced-Apart new d ds h.0, replace-Apart new ds h.1)

pub put-Apart :
    (d : EmailDelivery) (m : Mailbox)
    → Apart same_id m.deliveries
    → Apart same_id (put_delivery d m).deliveries
unfolding put_delivery
put-Apart d m h = replace-Apart d m.deliveries h

attempt-Apart :
    (env : Services) (now : ℕ) (d : EmailDelivery) (u : Subscriber) (o : Option Bool) (m : Mailbox)
    → Apart same_id m.deliveries
    → Apart same_id (attempt_verified env now d u o m).0.deliveries
unfolding attempt_verified set_user
attempt-Apart env now d u none m h =
    put-Apart (delayed now (codes "recipient_verification_unavailable") d) m h
attempt-Apart env now d u (some false) m h =
    put-Apart (record d { status = DeliveryStatus.cancelled })
      (set_user u.id (λ v. record v { verified = false }) m) h
attempt-Apart env now d u (some true) m h = go (sender_key env u) (body_of env m d u)
  where
    go : (k b : Option Text) → Apart same_id (hand_over now d u k b m).0.deliveries
    go none b = h
    go (some k) none = h
    go (some k) (some b) = put-Apart (charged now u b d) m h

pub consider-Apart :
    (env : Services) (now : ℕ) (d : EmailDelivery) (u : Subscriber) (v : ClaimVerdict) (m : Mailbox)
    → Apart same_id m.deliveries
    → Apart same_id (consider env now d u v m).0.deliveries
unfolding consider
consider-Apart env now d u pass_over m h = h
consider-Apart env now d u (mark s) m h = put-Apart (record d { status = s }) m h
consider-Apart env now d u lapse m h =
    put-Apart
      (record d {
        status = DeliveryStatus.reconcile;
        error_code = some (codes "idempotency_window_expired");
      })
      m h
consider-Apart env now d u pause m h = put-Apart (delayed now (codes "quota_paused") d) m h
consider-Apart env now d u attempt m h =
    attempt-Apart env now d u (env.verify_recipient u.id u.email) m h
