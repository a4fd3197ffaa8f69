-- ===== src/RequestLimits/LeaseCounts.antt =====
-- Counting the leases of a sorted set: what each command of the lease scripts of
-- app/request_limits/scripts.py does to the number held.
use job_ping.RequestLimits.LeaseScripts.{
  Member, SortedSet, members_at, purge, zadd, zscore, zrem, granted, at_capacity, is_lost,
  drop_lease,
}
use job_ping.Base.{
  ℕ, suc, ◌+◌, ◌≤◌, ◌<◌, String, ◌≡◌, refl, inl, inr, false, some, List, [], ◌∷◌, arith, length,
  length-keep-le, ltb, Bool-cases, ◌==◌, string_eq, nat_eq,
}

-- The leases of a key that are held at a time.
unfoldable pub held : ℕ → SortedSet → ℕ
unfolding members_at purge
held now z = length (purge now (members_at now z))

pub purge-zadd-le :
    (now score : ℕ) (t : String) (ms : List Member)
    → length (purge now (zadd t score ms)) ≤ suc (length (purge now ms))
unfolding purge zadd
purge-zadd-le now score t [] = ground arith
purge-zadd-le now score t (m ∷ ms) = ground (arith, purge-zadd-le now score t ms)

pub purge-zadd-held :
    (now score : ℕ) (t : String) (ms : List Member)
    → is_lost now (zscore t ms) ≡ false
    → length (purge now (zadd t score ms)) ≤ length (purge now ms)
unfolding purge zadd zscore is_lost
purge-zadd-held now score t [] h = ground arith
purge-zadd-held now score t (m ∷ ms) h = ground (arith, purge-zadd-held now score t ms)

pub purge-zrem-le :
    (now : ℕ) (t : String) (ms : List Member)
    → length (purge now (zrem t ms)) ≤ length (purge now ms)
unfolding purge zrem
purge-zrem-le now t [] = omega arith
purge-zrem-le now t (m ∷ ms) = ground (arith, purge-zrem-le now t ms)

pub purge-purge-le :
    (now : ℕ) (ms : List Member) → length (purge now (purge now ms)) ≤ length (purge now ms)
unfolding purge
purge-purge-le now ms = length-keep-le (λ m. ltb now m.expiry) (purge now ms)

pub purge-later-le :
    (now gap : ℕ) (ms : List Member) → length (purge (now + gap) ms) ≤ length (purge now ms)
unfolding purge
purge-later-le now gap [] = omega arith
purge-later-le now gap (m ∷ ms) = ground (arith, purge-later-le now gap ms)

pub held-granted-le :
    (now ttl : ℕ) (t : String) (ms : List Member)
    → held now (granted now ttl t ms) ≤ length (purge now (zadd t (now + ttl) ms))
unfolding held granted members_at purge
held-granted-le now ttl t ms = ground arith

pub held-later-le : (now gap : ℕ) (z : SortedSet) → held (now + gap) z ≤ held now z
unfolding held members_at purge
held-later-le now gap z = ground (arith, purge-later-le now gap z.members)

pub held-members-le :
    (now : ℕ) (ms : List Member) (z : SortedSet)
    → held now (record z { members = ms }) ≤ length (purge now ms)
unfolding held members_at purge
held-members-le now ms z = ground arith

pub held_lem : (now : ℕ) (z : SortedSet) → held now z ≡ length (purge now (members_at now z))
unfolding held
held_lem now z = refl

pub held-drop-le :
    (now : ℕ) (t : String) (z : SortedSet) → held now (drop_lease now t z) ≤ held now z
unfolding drop_lease
held-drop-le now t z = omega (
  arith,
  held-members-le now (zrem t (members_at now z)) z,
  purge-zrem-le now t (members_at now z),
  held_lem now z,
)

-- A grant after the capacity test, and one of a lease that is there.
pub granted-room :
    (limit now ttl : ℕ) (t : String) (ms : List Member)
    → 0 < limit
    → at_capacity limit (purge now ms) ≡ false
    → held now (granted now ttl t (purge now ms)) ≤ limit
unfolding at_capacity
granted-room limit now ttl t ms pos room = ground (
  arith,
  held-granted-le now ttl t (purge now ms),
  purge-zadd-le now (now + ttl) t (purge now ms),
  purge-purge-le now ms,
)

pub granted-held :
    (now ttl : ℕ) (t : String) (z : SortedSet)
    → is_lost now (zscore t (members_at now z)) ≡ false
    → held now (granted now ttl t (members_at now z)) ≤ held now z
granted-held now ttl t z here = omega (
  arith,
  held_lem now z,
  held-granted-le now ttl t (members_at now z),
  purge-zadd-held now (now + ttl) t (members_at now z) here,
)

pub held-purged-le :
    (now : ℕ) (z : SortedSet)
    → held now (record z { members = purge now (members_at now z) }) ≤ held now z
held-purged-le now z = omega (
  arith,
  held_lem now z,
  held-members-le now (purge now (members_at now z)) z,
  purge-purge-le now (members_at now z),
)

zscore-zadd : (t : String) (score : ℕ) (ms : List Member) → zscore t (zadd t score ms) ≡ some score
unfolding zscore zadd
zscore-zadd t score [] = ground (arith, (string_eq.equals_iff t t).1)
zscore-zadd t score (m ∷ ms) = elim (Bool-cases (m.token == t)) [
  | inl same ↦ rw same (ground (arith, (string_eq.equals_iff t t).1))
  | inr other ↦ rw (other, other) (zscore-zadd t score ms)
]

-- A lease that was granted is there until its time is over.
pub granted-kept :
    (now ttl gap : ℕ) (t : String) (ms : List Member)
    → gap < ttl
    → is_lost (now + gap) (zscore t (members_at (now + gap) (granted now ttl t ms))) ≡ false
unfolding members_at granted is_lost
granted-kept now ttl gap t ms h = ground (arith, zscore-zadd t (now + ttl) ms)
