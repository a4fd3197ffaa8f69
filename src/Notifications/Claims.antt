-- ===== src/Notifications/Claims.antt =====
-- app/notifications/worker.py NotificationWorker.claim: the delivery that is sent next, under a lease.
use job_ping.Base.{
  ℕ, ◌+◌, ◌-◌, ◌*◌, max, Bool, true, false, not, ◌&&◌, ◌||◌, Option, none, some, List, [], ◌∷◌,
  keep, find, Text, codes, is_empty, ltb, leb, if◌then◌else◌, ◌==◌, nat_eq, list_eq, order_by,
  option_eq, take,
}
use job_ping.Notifications.Models.{
  Provider, Mailbox, EmailDelivery, SenderStatus, Occurrence, Subscriber, DeliveryStatus,
  DeliveryKind, Account, delivery_status_eq, sender_status_eq, delivery_kind_eq, shared_account,
  own,
}
use job_ping.Notifications.Budget.{budget}
use job_ping.Notifications.Recaps.{replace}

-- What claim calls: the check of a recipient (which may raise), decrypt of a subscriber's key (or the
-- environment's key), and the rendering of a delivery. `none` is an exception that claim catches.
pub record Services : Type 0 where
  pub verify_recipient : ℕ → Text → Option Bool
  pub decrypt : Text → Option Text
  pub shared_key : Option Text
  pub render : Mailbox → EmailDelivery → Subscriber → Option Text

pub record Claimed : Type 0 where
  pub delivery_id : ℕ
  pub key : Text
  pub body : Text

unfoldable pub lease_over : Option ℕ → ℕ → Bool
lease_over none now = true
lease_over (some t) now = leb t now

unfoldable pub is_candidate : ℕ → EmailDelivery → Bool
unfolding lease_over
is_candidate now d =
    (d.status == DeliveryStatus.pending || d.status == DeliveryStatus.sending)
    && leb d.due_at now
    && lease_over d.lease_until now

unfoldable pub rank : EmailDelivery → ℕ
rank d = if d.kind == DeliveryKind.recap then 0 else 1

-- Recaps first, then the oldest: the order of the query.
unfoldable pub queried_first : EmailDelivery → EmailDelivery → Bool
unfolding rank
queried_first a b = ltb (rank a) (rank b) || rank a == rank b && leb a.created_at b.created_at

-- The time of a subscriber's last first attempt, 0 standing for datetime.min where there is none.
unfoldable pub last_charge : ℕ → List EmailDelivery → ℕ
last_charge user [] = 0
last_charge user (d ∷ ds) =
    max (if d.subscriber_id == user then elim d.first_attempt [ none ↦ 0 | some t ↦ t ] else 0)
      (last_charge user ds)

-- The sort of the candidates: recaps, then the subscriber that has waited longest, then the oldest.
unfoldable pub claimed_first : List EmailDelivery → EmailDelivery → EmailDelivery → Bool
unfolding rank last_charge
claimed_first ds a b =
    ltb (rank a) (rank b)
    || rank a == rank b
      && (ltb (last_charge a.subscriber_id ds) (last_charge b.subscriber_id ds)
          || last_charge a.subscriber_id ds == last_charge b.subscriber_id ds
            && (ltb a.created_at b.created_at || a.created_at == b.created_at && leb a.id b.id))

unfoldable pub candidates : ℕ → List EmailDelivery → List EmailDelivery
unfolding is_candidate queried_first claimed_first
candidates now ds =
    order_by (claimed_first ds) (take 500 (order_by queried_first (keep (is_candidate now) ds)))

-- The subscriber has since left, or does not want this kind.
unfoldable pub is_withdrawn : EmailDelivery → Subscriber → Bool
is_withdrawn d u =
    u.suppressed
    || not u.verified
    || d.kind == DeliveryKind.alert && not u.alerts
    || d.kind == DeliveryKind.recap && not u.recap

unfoldable pub is_outdated : Option Text → Text → Bool
is_outdated none version = false
is_outdated (some v) version = not (is_empty v) && not (v == version)

unfoldable pub is_stopped : SenderStatus → Bool
is_stopped s = s == SenderStatus.sender_error || s == SenderStatus.needs_test

unfoldable pub is_attempted : EmailDelivery → Bool
is_attempted d = not (d.first_attempt == none)

-- `first_attempt and now - first_attempt >= 23 hours`
unfoldable pub window_over : ℕ → Option ℕ → Bool
window_over now none = false
window_over now (some t) = leb (23 * 3600) (now - t)

-- The occurrence of an alert is gone or closed.
unfoldable pub is_closed_or_gone : Option Occurrence → Bool
is_closed_or_gone none = true
is_closed_or_gone (some o) = not (o.closed_at == none)

unfoldable pub account_of : Subscriber → Account
account_of u = elim u.provider [ Provider.shared ↦ shared_account | Provider.byok ↦ own u.id ]

-- What the checks before the recipient's make of a candidate.
pub data ClaimVerdict : Type 0 where
  pass_over : ClaimVerdict
  mark : DeliveryStatus → ClaimVerdict
  lapse : ClaimVerdict
  pause : ClaimVerdict
  attempt : ClaimVerdict

unfoldable pub alert_verdict : ℕ → List Occurrence → EmailDelivery → Option ClaimVerdict
unfolding is_closed_or_gone
alert_verdict now os d = elim d.occurrence_ids [
  | [] ↦ some (mark DeliveryStatus.cancelled)
  | i ∷ _ ↦
      if is_closed_or_gone (find (λ o. o.id == i) os)
      then some (mark DeliveryStatus.cancelled)
      else if leb (24 * 3600) (now - d.created_at)
      then some (mark DeliveryStatus.expired)
      else none
]

unfoldable pub quota_verdict : ℕ → EmailDelivery → Subscriber → Mailbox → ClaimVerdict
unfolding budget account_of is_attempted
quota_verdict now d u m =
    if not (is_attempted d) && not (budget (account_of u) d.kind now m) then pause else attempt

unfoldable pub verdict : ℕ → EmailDelivery → Subscriber → Mailbox → ClaimVerdict
unfolding is_withdrawn is_outdated is_stopped window_over alert_verdict quota_verdict
verdict now d u m =
    if is_withdrawn d u
    then mark DeliveryStatus.cancelled
    else if is_outdated d.connection_version u.connection_version
    then mark (if is_attempted d then DeliveryStatus.reconcile else DeliveryStatus.cancelled)
    else if is_stopped u.status && not (d.kind == DeliveryKind.test)
    then pass_over
    else if window_over now d.first_attempt
    then lapse
    else if d.kind == DeliveryKind.alert && not (is_attempted d)
    then elim (alert_verdict now m.occurrences d) [ none ↦ quota_verdict now d u m | some v ↦ v ]
    else quota_verdict now d u m

unfoldable pub put_delivery : EmailDelivery → Mailbox → Mailbox
unfolding replace
put_delivery d m = record m { deliveries = replace d m.deliveries }

unfoldable pub change_user : ℕ → (Subscriber → Subscriber) → List Subscriber → List Subscriber
change_user id f [] = []
change_user id f (u ∷ us) = (if u.id == id then f u else u) ∷ change_user id f us

unfoldable pub set_user : ℕ → (Subscriber → Subscriber) → Mailbox → Mailbox
unfolding change_user
set_user id f m = record m { subscribers = change_user id f m.subscribers }

-- The recipient cannot be checked now, or the quota is used up: five minutes later.
unfoldable pub delayed : ℕ → Text → EmailDelivery → EmailDelivery
delayed now code d = record d { error_code = some code; due_at = now + 300 }

unfoldable pub charged : ℕ → Subscriber → Text → EmailDelivery → EmailDelivery
unfolding account_of
charged now u body d = record d {
  payload = some body;
  account = some (account_of u);
  connection_version = some u.connection_version;
  first_attempt = some (elim d.first_attempt [ none ↦ now | some t ↦ t ]);
  attempts = d.attempts + 1;
  status = DeliveryStatus.sending;
  lease_until = some (now + 120);
}

unfoldable pub sender_key : Services → Subscriber → Option Text
sender_key env u = elim u.provider [
  | Provider.shared ↦ env.shared_key
  | Provider.byok ↦ env.decrypt u.key_ciphertext
]

unfoldable pub body_of : Services → Mailbox → EmailDelivery → Subscriber → Option Text
body_of env m d u = elim d.payload [ none ↦ env.render m d u | some p ↦ some p ]

unfoldable pub hand_over :
    ℕ → EmailDelivery → Subscriber → Option Text → Option Text → Mailbox → Mailbox × Option Claimed
unfolding charged put_delivery set_user
hand_over now d u (some key) (some body) m = (
  put_delivery (charged now u body d) m,
  some (record { delivery_id = d.id; key = key; body = body }),
)
hand_over now d u key body m =
    (set_user u.id (λ v. record v { status = SenderStatus.configuration_error }) m, none)

unfoldable pub attempt_verified :
    Services → ℕ → EmailDelivery → Subscriber → Option Bool → Mailbox → Mailbox × Option Claimed
unfolding delayed put_delivery hand_over sender_key body_of
attempt_verified env now d u none m =
    (put_delivery (delayed now (codes "recipient_verification_unavailable") d) m, none)
attempt_verified env now d u (some false) m = (
  put_delivery (record d { status = DeliveryStatus.cancelled })
      (set_user u.id (λ v. record v { verified = false }) m),
  none,
)
attempt_verified env now d u (some true) m =
    hand_over now d u (sender_key env u) (body_of env m d u) m

unfoldable pub consider :
    Services → ℕ → EmailDelivery → Subscriber → ClaimVerdict → Mailbox → Mailbox × Option Claimed
unfolding attempt_verified
consider env now d u pass_over m = (m, none)
consider env now d u (mark s) m = (put_delivery (record d { status = s }) m, none)
consider env now d u lapse m = (
  put_delivery
      (record d {
        status = DeliveryStatus.reconcile;
        error_code = some (codes "idempotency_window_expired");
      })
      m,
  none,
)
consider env now d u pause m = (put_delivery (delayed now (codes "quota_paused") d) m, none)
consider env now d u attempt m = attempt_verified env now d u (env.verify_recipient u.id u.email) m
