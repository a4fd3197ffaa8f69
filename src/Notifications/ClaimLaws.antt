-- ===== src/Notifications/ClaimLaws.antt =====
-- What app/notifications/worker.py NotificationWorker.claim grants: the checks that a delivery has passed, its
-- lease, and the quota of its account.
use job_ping.Base.{
  ℕ, ◌≡◌, refl, ◌≢◌, Bool, true, false, Option, none, some, List, arith, Text, not, ◌&&◌, [], ◌∷◌,
  find, All, ◌==◌, nat_eq, Apart, ◌∙◌, keep, order_by, All-order, take, All-take, sym,
}
use job_ping.Notifications.Claims.{
  Services, hand_over, attempt_verified, consider, quota_verdict, alert_verdict, verdict, attempt,
  Claimed, ClaimVerdict, is_withdrawn, put_delivery, is_attempted, is_outdated, charged,
  window_over, sender_key, mark, account_of, body_of, pass_over, lapse, pause, is_candidate,
  candidates, queried_first, claimed_first,
}
use job_ping.Notifications.Models.{
  EmailDelivery, Occurrence, Subscriber, Mailbox, DeliveryKind, delivery_kind_eq,
}
use job_ping.Notifications.Budget.{budget}
use job_ping.Notifications.ClaimLoop.{claim_each, claim_one, claim_delivery, claim_rest}
use mathlib.Core.Path.{subst}
use job_ping.Notifications.UniqueIds.{same_id, consider-Apart}
use job_ping.Notifications.Members.{keep-has}
use job_ping.Notifications.Skipped.{
  IsRow, Retained, candidates-keep, rows, Retained-refl, consider-Retained,
}

-- A delivery that a subscriber is sent now, out of the tables `p`.
pub record Granted (env : Services) (now : ℕ) (d : EmailDelivery) (u : Subscriber) (c : Claimed)
    (p n : Mailbox) : Type 0 where
  pub delivery_is : c.delivery_id ≡ d.id
  pub is_wanted : is_withdrawn d u ≡ false
  pub is_current : is_outdated d.connection_version u.connection_version ≡ false
  pub in_time : window_over now d.first_attempt ≡ false
  pub is_live :
      (d.kind == DeliveryKind.alert && not (is_attempted d)) ≡ true
      → alert_verdict now p.occurrences d ≡ none
  pub is_verified : env.verify_recipient u.id u.email ≡ some true
  pub in_quota : is_attempted d ≡ false → budget (account_of u) d.kind now p ≡ true
  pub result : n ≡ put_delivery (charged now u c.body d) p

hand_over-inv :
    (now : ℕ) (d : EmailDelivery) (u : Subscriber) (key body : Option Text) (p n : Mailbox)
    (c : Claimed)
    → hand_over now d u key body p ≡ (n, some c)
    → (c.delivery_id ≡ d.id) × (n ≡ put_delivery (charged now u c.body d) p)
unfolding hand_over
hand_over-inv now d u none body p n c h = absurd (ground arith)
hand_over-inv now d u (some k) none p n c h = absurd (ground arith)
hand_over-inv now d u (some k) (some b) p n c h = (ground arith, ground arith)

attempt-inv :
    (env : Services) (now : ℕ) (d : EmailDelivery) (u : Subscriber) (o : Option Bool)
    (p n : Mailbox) (c : Claimed)
    → attempt_verified env now d u o p ≡ (n, some c)
    → (o ≡ some true) × (c.delivery_id ≡ d.id) × (n ≡ put_delivery (charged now u c.body d) p)
unfolding attempt_verified
attempt-inv env now d u none p n c h = absurd (ground arith)
attempt-inv env now d u (some false) p n c h = absurd (ground arith)
attempt-inv env now d u (some true) p n c h =
    let k = hand_over-inv now d u (sender_key env u) (body_of env p d u) p n c h in (refl, k.0, k.1)

consider-inv :
    (env : Services) (now : ℕ) (d : EmailDelivery) (u : Subscriber) (v : ClaimVerdict)
    (p n : Mailbox) (c : Claimed)
    → consider env now d u v p ≡ (n, some c)
    → (v ≡ attempt)
      × (env.verify_recipient u.id u.email ≡ some true)
      × (c.delivery_id ≡ d.id)
      × (n ≡ put_delivery (charged now u c.body d) p)
unfolding consider
consider-inv env now d u pass_over p n c h = absurd (ground arith)
consider-inv env now d u (mark s) p n c h = absurd (ground arith)
consider-inv env now d u lapse p n c h = absurd (ground arith)
consider-inv env now d u pause p n c h = absurd (ground arith)
consider-inv env now d u attempt p n c h =
    let k = attempt-inv env now d u (env.verify_recipient u.id u.email) p n c h in
    (refl, k.0, k.1, k.2)

quota_verdict-attempt :
    (now : ℕ) (d : EmailDelivery) (u : Subscriber) (p : Mailbox)
    → quota_verdict now d u p ≡ attempt
    → is_attempted d ≡ false
    → budget (account_of u) d.kind now p ≡ true
unfolding quota_verdict
quota_verdict-attempt now d u p h k = ground arith

alert_verdict-stops :
    (now : ℕ) (os : List Occurrence) (d : EmailDelivery) → alert_verdict now os d ≢ some attempt
unfolding alert_verdict
alert_verdict-stops now os d h = ground arith

verdict-attempt :
    (now : ℕ) (d : EmailDelivery) (u : Subscriber) (p : Mailbox)
    → verdict now d u p ≡ attempt
    → (is_withdrawn d u ≡ false)
      × (is_outdated d.connection_version u.connection_version ≡ false)
      × (window_over now d.first_attempt ≡ false)
      × ((d.kind == DeliveryKind.alert && not (is_attempted d)) ≡ true
          → alert_verdict now p.occurrences d ≡ none)
      × (quota_verdict now d u p ≡ attempt)
unfolding verdict
verdict-attempt now d u p h = (
  ground arith,
  ground arith,
  ground arith,
  λ k. ground (arith, alert_verdict-stops now p.occurrences d),
  ground (arith, alert_verdict-stops now p.occurrences d),
)

pub consider-Granted :
    (env : Services) (now : ℕ) (d : EmailDelivery) (u : Subscriber) (p n : Mailbox) (c : Claimed)
    → consider env now d u (verdict now d u p) p ≡ (n, some c)
    → Granted env now d u c p n
consider-Granted env now d u p n c h =
    let (v, ok_recipient, id, res) = consider-inv env now d u (verdict now d u p) p n c h in
    let (a, b, e, l, q) = verdict-attempt now d u p v in
    record {
      delivery_is = id;
      is_wanted = a;
      is_current = b;
      in_time = e;
      is_live = l;
      is_verified = ok_recipient;
      in_quota = quota_verdict-attempt now d u p q;
      result = res;
    }

-- A claim as the loop makes it: of a row of the tables it started with, out of tables that are still the same to
-- the checks.
pub record Reached (env : Services) (now : ℕ) (m n : Mailbox) (c : Claimed) : Type 0 where
  pub taken : EmailDelivery
  pub reader : Subscriber
  pub reached : Mailbox
  pub is_candidate_ : is_candidate now taken ≡ true
  pub is_row : IsRow m.deliveries taken
  pub has_reader : find (λ u. u.id == taken.subscriber_id) reached.subscribers ≡ some reader
  pub apart : Apart same_id reached.deliveries
  pub same : Retained m reached
  pub granted : Granted env now taken reader c reached n

IsTaken : Mailbox → ℕ → EmailDelivery → Type 0
IsTaken m now d = (is_candidate now d ≡ true) × IsRow m.deliveries d

rest-Reached :
    (env : Services) (now : ℕ) (d : EmailDelivery)
    (go : Mailbox → Option (Mailbox × Option Claimed)) (o : Option Subscriber) (m q n : Mailbox)
    (c : Claimed)
    → IsTaken m now d
    → o ≡ find (λ u. u.id == d.subscriber_id) q.subscribers
    → Apart same_id q.deliveries
    → Retained m q
    → ((p : Mailbox)
        → Apart same_id p.deliveries
        → Retained m p
        → go p ≡ some (n, some c)
        → Reached env now m n c)
    → claim_rest go (claim_one env now d o q) ≡ some (n, some c)
    → Reached env now m n c
unfolding claim_one claim_rest IsTaken IsRow
rest-Reached env now d go none m q n c k w a s f h = absurd (ground arith)
rest-Reached env now d go (some u) m q n c k w a s f h =
    cases (consider env now d u (verdict now d u q) q) refl h
  where
    cases :
        (r : Mailbox × Option Claimed)
        → consider env now d u (verdict now d u q) q ≡ r
        → claim_rest go (some r) ≡ some (n, some c)
        → Reached env now m n c
    cases (p, none) e g =
        f p
          (subst (λ (r : Mailbox × Option Claimed). Apart same_id r.0.deliveries) e
            (consider-Apart env now d u (verdict now d u q) q a))
          (consider-Retained env now d u m q p k.1.1 s (verdict now d u q) e) g
    cases (p, some b) e g =
        let same : (p, some b) ≡ (n, some c) = ground arith in
        record {
          taken = d;
          reader = u;
          reached = q;
          is_candidate_ = k.0;
          is_row = k.1;
          has_reader = sym w;
          apart = a;
          same = s;
          granted = consider-Granted env now d u q n c (e ∙ same);
        }

each-Reached :
    (env : Services) (now : ℕ) (ds : List EmailDelivery) (m q n : Mailbox) (c : Claimed)
    → All (IsTaken m now) ds
    → Apart same_id q.deliveries
    → Retained m q
    → claim_each env now ds q ≡ some (n, some c)
    → Reached env now m n c
unfolding claim_each
each-Reached env now [] m q n c k a s h = absurd (ground arith)
each-Reached env now (d ∷ ds) m q n c k a s h =
    rest-Reached env now d (claim_each env now ds)
      (find (λ u. u.id == d.subscriber_id) q.subscribers) m q n c k.0 refl a s
      (λ p b t. each-Reached env now ds m p n c k.1 b t) h

both-All :
    (P Q : EmailDelivery → Type 0) (ds : List EmailDelivery)
    → All P ds
    → All Q ds
    → All (λ (d : EmailDelivery). P d × Q d) ds
both-All P Q [] h k = tt
both-All P Q (d ∷ ds) h k = ((h.0, k.0), both-All P Q ds h.1 k.1)

candidates-All :
    (now : ℕ) (ds : List EmailDelivery)
    → All (λ (d : EmailDelivery). is_candidate now d ≡ true) (candidates now ds)
unfolding candidates
candidates-All now ds =
    let P = λ (d : EmailDelivery). is_candidate now d ≡ true in
    let found = order_by queried_first (keep (is_candidate now) ds) in
    All-order P (claimed_first ds) (take 500 found) (
      All-take P 500 found
        (All-order P queried_first (keep (is_candidate now) ds) (keep-has (is_candidate now) ds)))

pub claim_reaches :
    (env : Services) (now : ℕ) (m n : Mailbox) (c : Claimed)
    → Apart same_id m.deliveries
    → claim_delivery env now m ≡ some (n, some c)
    → Reached env now m n c
unfolding claim_delivery IsTaken
claim_reaches env now m n c a h =
    each-Reached env now (candidates now m.deliveries) m m n c
      (both-All (λ (d : EmailDelivery). is_candidate now d ≡ true) (IsRow m.deliveries)
        (candidates now m.deliveries) (candidates-All now m.deliveries)
        (candidates-keep (IsRow m.deliveries) now m.deliveries (rows m.deliveries a)))
      a (Retained-refl m) h
