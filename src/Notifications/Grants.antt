-- ===== src/Notifications/Grants.antt =====
-- What app/notifications/worker.py NotificationWorker.claim grants, of the tables before and after it.
use job_ping.Base.{
  ℕ, ◌-◌, ◌*◌, ◌<◌, ◌≡◌, refl, true, false, none, some, List, [], ◌∷◌, arith, find, ◌==◌, nat_eq,
  Option, leb, if◌then◌else◌, Apart, sym, ◌∙◌, not, ◌&&◌, ◌≤◌, ◌⊎◌, ◌+◌, inl, inr, Text, list_eq,
  list_beq_iff,
}
use mathlib.Core.Path.{subst}
use job_ping.Notifications.Models.{
  Occurrence, EmailDelivery, Mailbox, Account, DeliveryKind, Subscriber, DeliveryKind-discrete,
  DeliveryStatus, delivery_kind_eq, delivery_status_eq,
}
use job_ping.Notifications.Claims.{
  Services, alert_verdict, put_delivery, is_closed_or_gone, is_attempted, Claimed, charged,
  is_candidate, is_withdrawn, is_outdated, window_over, account_of, mark, lease_over,
}
use job_ping.Notifications.Budget.{budget, days}
use job_ping.Notifications.Skipped.{IsRow, Retained, same-charges, replaced-found}
use job_ping.Notifications.UniqueIds.{same_id}
use job_ping.Notifications.ClaimLoop.{claim_delivery}
use job_ping.Notifications.ClaimLaws.{claim_reaches}

-- An alert's posting occurrence is stored and open, and the alert is not a day old.
abbrev pub IsLive : ℕ → List Occurrence → EmailDelivery → Type 0
IsLive now os d =
    (i : ℕ) × (rest : List ℕ) × (o : Occurrence) × (d.occurrence_ids ≡ i ∷ rest)
    × (find (λ p. p.id == i) os ≡ some o)
    × (o.closed_at ≡ none)
    × (now - d.created_at < 24 * 3600)

-- The row `e` that is left of `d`: sent to `u` under a lease of two minutes, charged to the account of `u` since the
-- first attempt, with the body and under the connection that later attempts repeat.
pub record IsSending (now : ℕ) (c : Claimed) (d : EmailDelivery) (u : Subscriber)
    (e : EmailDelivery) : Type 0 where
  pub status : e.status ≡ DeliveryStatus.sending
  pub lease : e.lease_until ≡ some (now + 120)
  pub account : e.account ≡ some (account_of u)
  pub at_first : d.first_attempt ≡ none → e.first_attempt ≡ some now
  pub at_later : (t : ℕ) → d.first_attempt ≡ some t → e.first_attempt ≡ some t
  pub attempts : e.attempts ≡ d.attempts + 1
  pub payload : e.payload ≡ some c.body
  pub version : e.connection_version ≡ some u.connection_version

-- The claim `c` out of the tables `m`, with the tables `n` after it: of the stored delivery `d` and its subscriber `u`.
pub record IsGranted (env : Services) (now : ℕ) (m n : Mailbox) (c : Claimed) (d : EmailDelivery)
    (u : Subscriber) : Type 0 where
  pub is_stored : find (λ e. e.id == c.delivery_id) m.deliveries ≡ some d
  pub is_reader : find (λ v. v.id == d.subscriber_id) n.subscribers ≡ some u
  pub is_open : (d.status ≡ DeliveryStatus.pending) ⊎ (d.status ≡ DeliveryStatus.sending)
  pub is_due : d.due_at ≤ now
  pub is_free : (t : ℕ) → d.lease_until ≡ some t → t ≤ now
  pub is_wanted :
      (u.suppressed ≡ false)
      × (u.verified ≡ true)
      × (d.kind ≡ DeliveryKind.alert → u.alerts ≡ true)
      × (d.kind ≡ DeliveryKind.recap → u.recap ≡ true)
  pub is_current :
      (v : Text) → d.connection_version ≡ some v → (v ≡ []) ⊎ (v ≡ u.connection_version)
  pub in_time : (t : ℕ) → d.first_attempt ≡ some t → now - t < 23 * 3600
  pub is_live : d.kind ≡ DeliveryKind.alert → d.first_attempt ≡ none → IsLive now m.occurrences d
  pub is_verified : env.verify_recipient u.id u.email ≡ some true
  pub in_quota :
      d.first_attempt ≡ none
      → budget (account_of u) d.kind now (record m { subscribers = n.subscribers }) ≡ true
  pub is_sending :
      (e : EmailDelivery) × (find (λ f. f.id == c.delivery_id) n.deliveries ≡ some e)
      × IsSending now c d u e

live :
    (now : ℕ) (os : List Occurrence) (d : EmailDelivery)
    → alert_verdict now os d ≡ none
    → IsLive now os d
unfolding alert_verdict is_closed_or_gone
live now os d h = cases d.occurrence_ids refl h
  where
    open_at :
        (i : ℕ) (rest : List ℕ)
        → d.occurrence_ids ≡ i ∷ rest
        → (p : Option Occurrence) → find (λ o. o.id == i) os ≡ p
        → (if is_closed_or_gone p
            then some (mark DeliveryStatus.cancelled)
            else if leb (24 * 3600) (now - d.created_at)
            then some (mark DeliveryStatus.expired)
            else none)
          ≡ none
        → IsLive now os d
    open_at i rest e none f k = absurd (ground arith)
    open_at i rest e (some o) f k = (i, rest, o, e, f, ground arith, ground arith)

    cases :
        (is : List ℕ)
        → d.occurrence_ids ≡ is
        → elim is [
          | [] ↦ some (mark DeliveryStatus.cancelled)
          | i ∷ _ ↦
              if is_closed_or_gone (find (λ o. o.id == i) os)
              then some (mark DeliveryStatus.cancelled)
              else if leb (24 * 3600) (now - d.created_at)
              then some (mark DeliveryStatus.expired)
              else none
        ]
          ≡ none
        → IsLive now os d
    cases [] e k = absurd (ground arith)
    cases (i ∷ rest) e k = open_at i rest e (find (λ o. o.id == i) os) refl k

candidate :
    (now : ℕ) (d : EmailDelivery)
    → is_candidate now d ≡ true
    → ((d.status ≡ DeliveryStatus.pending) ⊎ (d.status ≡ DeliveryStatus.sending))
      × (d.due_at ≤ now)
      × ((t : ℕ) → d.lease_until ≡ some t → t ≤ now)
unfolding is_candidate lease_over
candidate now d h = (
  ground (
    arith,
    delivery_status_eq.equals_iff d.status DeliveryStatus.pending,
    delivery_status_eq.equals_iff d.status DeliveryStatus.sending,
  ),
  ground arith,
  λ t k. ground (arith, rw k at h),
)

wanted :
    (d : EmailDelivery) (u : Subscriber)
    → is_withdrawn d u ≡ false
    → (u.suppressed ≡ false)
      × (u.verified ≡ true)
      × (d.kind ≡ DeliveryKind.alert → u.alerts ≡ true)
      × (d.kind ≡ DeliveryKind.recap → u.recap ≡ true)
unfolding is_withdrawn DeliveryKind-discrete
wanted d u h =
    (ground arith, ground arith, λ k. ground (arith, rw k at h), λ k. ground (arith, rw k at h))

current :
    (o : Option Text) (version : Text)
    → is_outdated o version ≡ false
    → (v : Text) → o ≡ some v
    → (v ≡ []) ⊎ (v ≡ version)
unfolding is_outdated
current none version h v k = absurd (ground arith)
current (some []) version h v k = inl (ground arith)
current (some (x ∷ xs)) version h v k =
    inr (sym (ground arith) ∙ (list_beq_iff (x ∷ xs) version).0 (ground arith))

charged-IsSending :
    (now : ℕ) (c : Claimed) (d : EmailDelivery) (u : Subscriber)
    → IsSending now c d u (charged now u c.body d)
unfolding charged
charged-IsSending now c d u = record {
  status = refl;
  lease = refl;
  account = refl;
  at_first = λ h. rw h refl;
  at_later = λ t h. rw h refl;
  attempts = refl;
  payload = refl;
  version = refl;
}

within :
    (now : ℕ) (d : EmailDelivery)
    → window_over now d.first_attempt ≡ false
    → (t : ℕ) → d.first_attempt ≡ some t
    → now - t < 23 * 3600
unfolding window_over
within now d h t k = ground (arith, rw k at h)

first_alert :
    (d : EmailDelivery)
    → d.first_attempt ≡ none
    → (is_attempted d ≡ false)
      × (d.kind ≡ DeliveryKind.alert
          → (d.kind == DeliveryKind.alert && not (is_attempted d)) ≡ true)
unfolding is_attempted DeliveryKind-discrete
first_alert d h = (ground arith, λ k. rw (k, h) refl)

budget-Retained :
    (account : Account) (kind : DeliveryKind) (now : ℕ) (m p : Mailbox)
    → Retained m p
    → budget account kind now p ≡ budget account kind now (record m { subscribers = p.subscribers })
unfolding budget
budget-Retained account kind now m p s =
    rw
      (
        s.accounts,
        same-charges account (now - days 1) p.deliveries m.deliveries s.charges,
        same-charges account (now - days 31) p.deliveries m.deliveries s.charges,
      )
      refl

pub claim_grants :
    (env : Services) (now : ℕ) (m n : Mailbox) (c : Claimed)
    → Apart same_id m.deliveries
    → claim_delivery env now m ≡ some (n, some c)
    → (d : EmailDelivery) × (u : Subscriber) × IsGranted env now m n c d u
unfolding put_delivery IsRow charged
claim_grants env now m n c a h =
    let r = claim_reaches env now m n c a h in
    let g = r.granted in
    let d = r.taken in
    (
      d,
      r.reader,
      record {
        is_stored = rw g.delivery_is r.is_row.0;
        is_reader = rw g.result r.has_reader;
        is_open = (candidate now d r.is_candidate_).0;
        is_due = (candidate now d r.is_candidate_).1;
        is_free = (candidate now d r.is_candidate_).2;
        is_wanted = wanted d r.reader g.is_wanted;
        is_current = current d.connection_version r.reader.connection_version g.is_current;
        in_time = within now d g.in_time;
        is_live = λ k t.
            subst (λ (os : List Occurrence). IsLive now os d) r.same.occurrences
              (live now r.reached.occurrences d (g.is_live ((first_alert d t).1 k)));
        is_verified = g.is_verified;
        in_quota = λ t. rw g.result (
            sym (budget-Retained (account_of r.reader) d.kind now m r.reached r.same)
            ∙ g.in_quota (first_alert d t).0);
        is_sending = (
          charged now r.reader c.body d,
          rw (g.result, g.delivery_is)
              (replaced-found d (charged now r.reader c.body d) m.deliveries r.reached.deliveries
                r.is_row.0 r.same.charges refl),
          charged-IsSending now c d r.reader,
        );
      },
    )

-- A first attempt passes the budget of its subscriber's account, out of the tables before the claim.
pub claim_budget :
    (env : Services) (now : ℕ) (m n : Mailbox) (c : Claimed) (d : EmailDelivery) (u : Subscriber)
    → Apart same_id m.deliveries
    → claim_delivery env now m ≡ some (n, some c)
    → find (λ e. e.id == c.delivery_id) m.deliveries ≡ some d
    → find (λ v. v.id == d.subscriber_id) n.subscribers ≡ some u
    → d.first_attempt ≡ none
    → budget (account_of u) d.kind now (record m { subscribers = n.subscribers }) ≡ true
claim_budget env now m n c d u a h f k t =
    let (e, v, g) = claim_grants env now m n c a h in
    let it : e ≡ d = ground (arith, g.is_stored, f) in
    let read : find (λ w. w.id == d.subscriber_id) n.subscribers ≡ some v =
      rw (sym it) g.is_reader in
    let its : v ≡ u = ground (arith, read, k) in rw (sym it, sym its) (g.in_quota (rw it t))
