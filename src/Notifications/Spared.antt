-- ===== src/Notifications/Spared.antt =====
-- That app/notifications/worker.py NotificationWorker.claim passes over suppressed subscribers.
use job_ping.Base.{
  ℕ, ◌≡◌, refl, ◌∙◌, inl, inr, Bool, true, false, not, ◌&&◌, Option, none, some, List, [], ◌∷◌,
  arith, find, find-All, any, All, All-imp, Text, ◌==◌, nat_eq, nat_beq_iff, Bool-cases,
}
use mathlib.Core.Path.{subst}
use job_ping.Notifications.Models.{EmailDelivery, Mailbox, Subscriber, SenderStatus}
use job_ping.Notifications.Claims.{
  Services, Claimed, put_delivery, consider, verdict, is_withdrawn, candidates, change_user,
  set_user, hand_over, attempt_verified, sender_key, body_of, ClaimVerdict, pass_over, mark, lapse,
  pause, attempt,
}
use job_ping.Notifications.ClaimLoop.{claim_one, claim_rest, claim_each, claim_delivery}
use job_ping.Notifications.ClaimLaws.{consider-Granted}
use job_ping.Notifications.Silence.{IsSuppressed}
use job_ping.Notifications.Skipped.{candidates-keep}

-- A mail of this id, to somebody else.
abbrev pub is_other : ℕ → ℕ → EmailDelivery → Bool
is_other id user d = d.id == id && not (d.subscriber_id == user)

wanted-unsuppressed :
    (d : EmailDelivery) (u : Subscriber) → is_withdrawn d u ≡ false → u.suppressed ≡ false
unfolding is_withdrawn
wanted-unsuppressed d u h = ground arith

module _ (user : ℕ) where
  changed-All :
      (v : ℕ) (f : Subscriber → Subscriber) (us : List Subscriber)
      → ((u : Subscriber) → IsSuppressed user u → IsSuppressed user (f u))
      → All (IsSuppressed user) us
      → All (IsSuppressed user) (change_user v f us)
  unfolding change_user
  changed-All v f [] k h = tt
  changed-All v f (u ∷ us) k h = elim (Bool-cases (u.id == v)) [
    | inl t ↦ rw t (k u h.0, changed-All v f us k h.1)
    | inr t ↦ rw t (h.0, changed-All v f us k h.1)
  ]

  handed-All :
      (now : ℕ) (d : EmailDelivery) (u : Subscriber) (key body : Option Text) (m : Mailbox)
      → All (IsSuppressed user) m.subscribers
      → All (IsSuppressed user) (hand_over now d u key body m).0.subscribers
  unfolding hand_over put_delivery set_user
  handed-All now d u (some key) (some body) m h = h
  handed-All now d u (some key) none m h =
      changed-All u.id (λ v. record v { status = SenderStatus.configuration_error }) m.subscribers
        (λ u k. k) h
  handed-All now d u none body m h =
      changed-All u.id (λ v. record v { status = SenderStatus.configuration_error }) m.subscribers
        (λ u k. k) h

  attempted-All :
      (env : Services) (now : ℕ) (d : EmailDelivery) (u : Subscriber) (o : Option Bool)
      (m : Mailbox)
      → All (IsSuppressed user) m.subscribers
      → All (IsSuppressed user) (attempt_verified env now d u o m).0.subscribers
  unfolding attempt_verified put_delivery set_user
  attempted-All env now d u none m h = h
  attempted-All env now d u (some false) m h =
      changed-All u.id (λ v. record v { verified = false }) m.subscribers (λ u k. k) h
  attempted-All env now d u (some true) m h =
      handed-All now d u (sender_key env u) (body_of env m d u) m h

  considered-All :
      (env : Services) (now : ℕ) (d : EmailDelivery) (u : Subscriber) (v : ClaimVerdict)
      (m : Mailbox)
      → All (IsSuppressed user) m.subscribers
      → All (IsSuppressed user) (consider env now d u v m).0.subscribers
  unfolding consider put_delivery
  considered-All env now d u pass_over m h = h
  considered-All env now d u (mark s) m h = h
  considered-All env now d u lapse m h = h
  considered-All env now d u pause m h = h
  considered-All env now d u attempt m h =
      attempted-All env now d u (env.verify_recipient u.id u.email) m h

  considered-other :
      (env : Services) (now : ℕ) (d : EmailDelivery) (u : Subscriber) (m n : Mailbox) (c : Claimed)
      → u.id ≡ d.subscriber_id
      → IsSuppressed user u
      → consider env now d u (verdict now d u m) m ≡ (n, some c)
      → (c.delivery_id ≡ d.id) × ((d.subscriber_id == user) ≡ false)
  considered-other env now d u m n c k s h = elim (Bool-cases (d.subscriber_id == user)) [
    | inl t ↦ absurd (
        ground (
          arith,
          s (k ∙ ground (arith, nat_beq_iff d.subscriber_id user)),
          wanted-unsuppressed d u (consider-Granted env now d u m n c h).is_wanted,
        ))
    | inr t ↦ ((consider-Granted env now d u m n c h).delivery_is, t)
  ]

  -- A claim is of one of the candidates, and not the subscriber's.
  IsOfOther : (EmailDelivery → Type 0) → Claimed → Type 0
  IsOfOther P c =
      (d : EmailDelivery) × P d × (c.delivery_id ≡ d.id) × ((d.subscriber_id == user) ≡ false)

  rest-other :
      (P : EmailDelivery → Type 0) (env : Services) (now : ℕ) (d : EmailDelivery)
      (go : Mailbox → Option (Mailbox × Option Claimed)) (o : Option Subscriber) (m n : Mailbox)
      (c : Claimed)
      → P d
      → ((u : Subscriber) → o ≡ some u → (u.id ≡ d.subscriber_id) × IsSuppressed user u)
      → All (IsSuppressed user) m.subscribers
      → ((p : Mailbox)
          → All (IsSuppressed user) p.subscribers
          → go p ≡ some (n, some c)
          → IsOfOther P c)
      → claim_rest go (claim_one env now d o m) ≡ some (n, some c)
      → IsOfOther P c
  unfolding claim_one claim_rest IsOfOther
  rest-other P env now d go none m n c pd f h k g = absurd (ground arith)
  rest-other P env now d go (some u) m n c pd f h k g =
      cases (consider env now d u (verdict now d u m) m) refl g
    where
      cases :
          (r : Mailbox × Option Claimed)
          → consider env now d u (verdict now d u m) m ≡ r
          → claim_rest go (some r) ≡ some (n, some c)
          → IsOfOther P c
      cases (q, none) e t =
          k q
            (subst (λ (r : Mailbox × Option Claimed). All (IsSuppressed user) r.0.subscribers) e
              (considered-All env now d u (verdict now d u m) m h))
            t
      cases (q, some b) e t =
          let same : (q, some b) ≡ (n, some c) = ground arith in
          let found = f u refl in
          let (id, other) = considered-other env now d u m n c found.0 found.1 (e ∙ same) in
          (d, pd, id, other)

  each-other :
      (P : EmailDelivery → Type 0) (env : Services) (now : ℕ) (ds : List EmailDelivery)
      (m n : Mailbox) (c : Claimed)
      → All P ds
      → All (IsSuppressed user) m.subscribers
      → claim_each env now ds m ≡ some (n, some c)
      → IsOfOther P c
  unfolding claim_each
  each-other P env now [] m n c p h g = absurd (ground arith)
  each-other P env now (d ∷ ds) m n c p h g =
      rest-other P env now d (claim_each env now ds)
        (find (λ u. u.id == d.subscriber_id) m.subscribers) m n c p.0
        (λ u e.
          let k = find-All (IsSuppressed user) (λ u. u.id == d.subscriber_id) m.subscribers u h e in
          (ground (arith, nat_beq_iff u.id d.subscriber_id), k.1))
        h (λ q hq. each-other P env now ds q n c p.1 hq) g

  -- A mail that is not the subscriber's is a mail of its id to somebody else.
  IsListed : List EmailDelivery → EmailDelivery → Type 0
  IsListed ds d = (d.subscriber_id == user) ≡ false → any (is_other d.id user) ds ≡ true

  All-IsListed : (ds : List EmailDelivery) → All (IsListed ds) ds
  unfolding IsListed
  All-IsListed [] = tt
  All-IsListed (d ∷ ds) = (
    λ h. ground (arith, nat_beq_iff d.id d.id),
    All-imp (IsListed ds) (IsListed (d ∷ ds)) ds (λ e k h. ground (arith, k h)) (All-IsListed ds),
  )

  -- What claim grants where a subscriber is suppressed is a mail to somebody else.
  pub claim_spares :
      (env : Services) (now : ℕ) (m n : Mailbox) (c : Claimed)
      → All (IsSuppressed user) m.subscribers
      → claim_delivery env now m ≡ some (n, some c)
      → any (is_other c.delivery_id user) m.deliveries ≡ true
  unfolding claim_delivery IsOfOther IsListed
  claim_spares env now m n c h g =
      let (d, p, id, other) =
        each-other (IsListed m.deliveries) env now (candidates now m.deliveries) m n c
          (candidates-keep (IsListed m.deliveries) now m.deliveries (All-IsListed m.deliveries)) h
          g in
      rw id (p other)
