-- ===== src/RequestLimits/LeaseScripts.antt =====
-- app/request_limits/scripts.py LEASE_ACQUIRE, LEASE_RENEW and LEASE_RELEASE, on a Redis that holds
-- sorted sets, and the runs of them that many workers interleave: each script is atomic in Redis.
use job_ping.Base.{
  ℕ, ◌+◌, ◌*◌, String, Bool, true, false, not, ◌&&◌, ◌||◌, Option, none, some, List, [], ◌∷◌,
  length, keep, ltb, leb, if◌then◌else◌, ◌==◌, nat_eq, string_eq,
}

-- The two kinds of key of app/request_limits/leases.py: opaque_key of an address, by its digest, and
-- the global one.
pub data Key : Type 0 where
  streams : String → Key
  streams_global : Key

unfoldable pub key_beq : Key → Key → Bool
key_beq (Key.streams x) (Key.streams y) = x == y
key_beq Key.streams_global Key.streams_global = true
key_beq _ _ = false

-- A member of a sorted set and its score: the lease's token and its expiry.
pub record Member : Type 0 where
  pub token : String
  pub expiry : ℕ

-- A sorted set, and the time at which EXPIRE lets Redis drop it.
pub record SortedSet : Type 0 where
  pub members : List Member
  pub expires : ℕ

abbrev pub Store : Type 0
Store = Key → SortedSet

abbrev pub no_members : SortedSet
no_members = record { members = []; expires = 0 }

unfoldable pub put : Key → SortedSet → Store → Store
unfolding key_beq
put k z store x = if key_beq k x then z else store x

-- What a command sees of a key: nothing once it has expired.
unfoldable pub members_at : ℕ → SortedSet → List Member
members_at now z = if leb z.expires now then [] else z.members

-- ZREMRANGEBYSCORE key -inf now
unfoldable pub purge : ℕ → List Member → List Member
purge now = keep (λ m. ltb now m.expiry)

-- ZADD key score member
unfoldable pub zadd : String → ℕ → List Member → List Member
zadd t score [] = record { token = t; expiry = score } ∷ []
zadd t score (m ∷ ms) =
    let rest = zadd t score ms in
    if m.token == t then record { token = t; expiry = score } ∷ ms else m ∷ rest

-- ZSCORE key member
unfoldable pub zscore : String → List Member → Option ℕ
zscore t [] = none
zscore t (m ∷ ms) = let rest = zscore t ms in if m.token == t then some m.expiry else rest

-- ZREM key member
unfoldable pub zrem : String → List Member → List Member
zrem t = keep (λ m. not (m.token == t))

-- The set with the lease until `now + ttl`; EXPIRE rounds `ttl * 2` up to seconds, which it is here.
unfoldable pub granted : ℕ → ℕ → String → List Member → SortedSet
unfolding zadd
granted now ttl t ms = record { members = zadd t (now + ttl) ms; expires = now + ttl * 2 }

-- `limit > 0 and ZCARD >= limit`
unfoldable pub at_capacity : ℕ → List Member → Bool
at_capacity limit ms = ltb 0 limit && leb limit (length ms)

unfoldable pub lease_acquire : ℕ → ℕ → ℕ → ℕ → String → Key → Key → Store → Bool × Store
unfolding members_at purge granted at_capacity put
lease_acquire now ttl ip_limit global_limit t ip all store =
    let mine = purge now (members_at now (store ip)) in
    let others = purge now (members_at now (store all)) in
    if at_capacity ip_limit mine || at_capacity global_limit others
    then (
      false,
      put all (record (store all) { members = others })
          (put ip (record (store ip) { members = mine }) store),
    )
    else (true, put all (granted now ttl t others) (put ip (granted now ttl t mine) store))

-- `not expiry or expiry <= now`
unfoldable pub is_lost : ℕ → Option ℕ → Bool
is_lost now none = true
is_lost now (some expiry) = leb expiry now

unfoldable pub lease_renew : ℕ → ℕ → String → Key → Key → Store → Bool × Store
unfolding members_at zscore is_lost granted put
lease_renew now ttl t ip all store =
    let mine = members_at now (store ip) in
    let others = members_at now (store all) in
    if is_lost now (zscore t mine) || is_lost now (zscore t others)
    then (false, store)
    else (true, put all (granted now ttl t others) (put ip (granted now ttl t mine) store))

unfoldable pub drop_lease : ℕ → String → SortedSet → SortedSet
unfolding members_at zrem
drop_lease now t z = record z { members = zrem t (members_at now z) }

unfoldable pub lease_release : ℕ → String → Key → Key → Store → Store
unfolding drop_lease put
lease_release now t ip all store =
    put all (drop_lease now t (store all)) (put ip (drop_lease now t (store ip)) store)
