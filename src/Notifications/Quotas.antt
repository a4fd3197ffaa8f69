-- ===== src/Notifications/Quotas.antt =====
-- What a claim leaves: the quota of its account, and its lease.
use job_ping.Base.{
  ℕ, ◌+◌, ◌-◌, ◌*◌, ◌≤◌, ◌<◌, ◌≡◌, refl, sym, inl, inr, Bool, true, false, some, List, [], ◌∷◌,
  arith, length, keep, All, Text, nat_beq_iff, Bool-cases, ◌==◌, nat_eq, any, Apart, none, find,
}
use job_ping.Notifications.Recaps.{replace}
use job_ping.Notifications.Budget.{budget, charged_since, days, reserve, recaps_of, is_charged}
use job_ping.Notifications.Claims.{
  is_candidate, charged, put_delivery, lease_over, Services, Claimed, is_attempted, account_of,
}
use job_ping.Notifications.Models.{EmailDelivery, Account, Subscriber, DeliveryKind, Mailbox}
use job_ping.Notifications.ClaimLaws.{claim_reaches}
use job_ping.Notifications.ClaimLoop.{claim_delivery}
use job_ping.Notifications.UniqueIds.{same_id}
use job_ping.Notifications.Skipped.{IsRow}

same-apart :
    (new d : EmailDelivery) (ds : List EmailDelivery)
    → d.id ≡ new.id
    → any (same_id d) ds ≡ false
    → replace new ds ≡ ds
unfolding replace
same-apart new d [] e h = refl
same-apart new d (x ∷ ds) e h =
    let rest = same-apart new d ds e (ground arith) in
    ground (arith, nat_beq_iff d.id x.id, nat_beq_iff x.id new.id)

count-replace :
    (q : EmailDelivery → Bool) (new : EmailDelivery) (ds : List EmailDelivery)
    → Apart same_id ds
    → length (keep q (replace new ds)) ≤ length (keep q ds) + 1
unfolding replace
count-replace q new [] h = omega arith
count-replace q new (d ∷ ds) h = elim (Bool-cases (d.id == new.id)) [
  | inl e ↦
      let same = same-apart new d ds (ground (arith, nat_beq_iff d.id new.id)) h.0 in
      rw (e, same) (ground arith)
  | inr e ↦ rw e (ground (arith, count-replace q new ds h.1))
]

-- A budget that is passed has room for the reserve and one more.
budget-room :
    (account : Account) (kind : DeliveryKind) (now : ℕ) (m : Mailbox)
    → budget account kind now m ≡ true
    → (charged_since account (now - days 1) m.deliveries
          + reserve kind (recaps_of account m.subscribers)
          + 1
        ≤ 90)
      × (charged_since account (now - days 31) m.deliveries
            + reserve kind (recaps_of account m.subscribers * 31)
            + 1
          ≤ 2900)
unfolding budget
budget-room account kind now m h = ground arith

-- The subscriber's account within its quota: what it is charged, with the reserve of a delivery of this kind.
abbrev pub IsInQuota : ℕ → EmailDelivery → Subscriber → Mailbox → Type 0
IsInQuota now d u n =
    (charged_since (account_of u) (now - days 1) n.deliveries
        + reserve d.kind (recaps_of (account_of u) n.subscribers)
      ≤ 90)
    × (charged_since (account_of u) (now - days 31) n.deliveries
          + reserve d.kind (recaps_of (account_of u) n.subscribers * 31)
        ≤ 2900)

put-IsInQuota :
    (now : ℕ) (d new : EmailDelivery) (u : Subscriber) (p : Mailbox)
    → Apart same_id p.deliveries
    → budget (account_of u) d.kind now p ≡ true
    → IsInQuota now d u (put_delivery new p)
unfolding charged_since put_delivery
put-IsInQuota now d new u p a h =
    let room = budget-room (account_of u) d.kind now p h in
    (
      omega (
        arith,
        room.0,
        count-replace (is_charged (account_of u) (now - days 1)) new p.deliveries a,
      ),
      omega (
        arith,
        room.1,
        count-replace (is_charged (account_of u) (now - days 31)) new p.deliveries a,
      ),
    )

is_first : (d : EmailDelivery) → d.first_attempt ≡ none → is_attempted d ≡ false
unfolding is_attempted
is_first d h = ground arith

-- A first attempt that claim grants, of a stored delivery and its subscriber, leaves the subscriber's account, of the
-- last day and of the last 31 days, at most 90 and 2900 first attempts, and for anything but a recap room besides for
-- a recap each day of each subscriber of the account.
pub claim_within_quota :
    (env : Services) (now : ℕ) (m n : Mailbox) (c : Claimed) (d : EmailDelivery) (u : Subscriber)
    → Apart same_id m.deliveries
    → claim_delivery env now m ≡ some (n, some c)
    → find (λ e. e.id == c.delivery_id) m.deliveries ≡ some d
    → find (λ v. v.id == d.subscriber_id) n.subscribers ≡ some u
    → d.first_attempt ≡ none
    → IsInQuota now d u n
unfolding put_delivery IsRow
claim_within_quota env now m n c d u a h f k t =
    let r = claim_reaches env now m n c a h in
    let g = r.granted in
    let stored : find (λ e. e.id == c.delivery_id) m.deliveries ≡ some r.taken =
      rw g.delivery_is r.is_row.0 in
    let it : r.taken ≡ d = ground (arith, stored, f) in
    let read : find (λ v. v.id == r.taken.subscriber_id) n.subscribers ≡ some r.reader =
      rw g.result r.has_reader in
    let k2 : find (λ v. v.id == r.taken.subscriber_id) n.subscribers ≡ some u = rw it k in
    let its : r.reader ≡ u = ground (arith, read, k2) in
    let first : r.taken.first_attempt ≡ none = rw it t in
    let done =
      put-IsInQuota now r.taken (charged now r.reader c.body r.taken) r.reader r.reached r.apart
        (g.in_quota (is_first r.taken first)) in
    rw (sym it, sym its, g.result) done

leased :
    (now later : ℕ) (u : Subscriber) (body : Text) (d : EmailDelivery)
    → later < now + 120
    → is_candidate later (charged now u body d) ≡ false
unfolding is_candidate charged lease_over
leased now later u body d h = ground arith

charged-id :
    (now : ℕ) (u : Subscriber) (body : Text) (d : EmailDelivery) → (charged now u body d).id ≡ d.id
unfolding charged
charged-id now u body d = refl

leased-All :
    (now later : ℕ) (u : Subscriber) (body : Text) (d : EmailDelivery) (ds : List EmailDelivery)
    → later < now + 120
    → All
        (λ (e : EmailDelivery). e.id ≡ d.id → is_candidate later e ≡ false)
        (replace (charged now u body d) ds)
unfolding replace
leased-All now later u body d [] h = tt
leased-All now later u body d (x ∷ ds) h = (
  ground (arith, leased now later u body d h, nat_beq_iff x.id d.id, charged-id now u body d),
  leased-All now later u body d ds h,
)

-- For two minutes no other claim can take a delivery that was claimed: no delivery of its id is a candidate.
pub claim_leases :
    (env : Services) (now later : ℕ) (m n : Mailbox) (c : Claimed)
    → Apart same_id m.deliveries
    → claim_delivery env now m ≡ some (n, some c)
    → later < now + 120
    → All (λ (e : EmailDelivery). e.id ≡ c.delivery_id → is_candidate later e ≡ false) n.deliveries
unfolding put_delivery
claim_leases env now later m n c a h l =
    let r = claim_reaches env now m n c a h in
    rw (r.granted.result, r.granted.delivery_is)
      (leased-All now later r.reader c.body r.taken r.reached.deliveries l)
