-- ===== src/Scrapers/DomainLimiter.antt =====
-- app/utils/rate_limiter.py DomainRateLimiter. Times are whole ticks of the clock, and tokens are counted in parts, as
-- many of which are made in a tick as the rate says; the double arithmetic of the code is not modelled.
use job_ping.Base.{
  ℕ, ◌+◌, ◌-◌, ◌*◌, min, Bool, true, false, not, Option, none, some, List, [], ◌∷◌, ◌++◌, length,
  keep, find, Text, ltb, leb, if◌then◌else◌, ◌==◌, nat_eq, list_eq,
}

-- RateLimit: its __post_init__ wants a rate above 0 and a capacity of one token at least.
pub record RateLimit : Type 0 where
  pub rate : ℕ
  pub capacity : ℕ

pub record DomainBucket : Type 0 where
  pub domain : Text
  pub parts : ℕ
  pub updated_at : ℕ

-- `min(capacity, tokens + max(0, now - updated_at) * rate)`
unfoldable pub parts_at : RateLimit → ℕ → DomainBucket → ℕ
parts_at l now b = min l.capacity (b.parts + (now - b.updated_at) * l.rate)

unfoldable pub refreshed : ℕ → ℕ → DomainBucket → DomainBucket
refreshed now parts b = record b { parts = parts; updated_at = now }

-- One round of the loop, under the bucket's lock: whether it returns.
unfoldable pub round : RateLimit → ℕ → ℕ → DomainBucket → Bool × DomainBucket
unfolding parts_at refreshed
round l wanted now b =
    if leb wanted (parts_at l now b)
    then (true, refreshed now (parts_at l now b - wanted) b)
    else (false, refreshed now (parts_at l now b) b)

-- The loop of acquire, whose rounds read the clock at these times: the time of the round that returns.
unfoldable pub rounds : RateLimit → ℕ → List ℕ → DomainBucket → Option (ℕ × DomainBucket)
unfolding round
rounds l wanted [] b = none
rounds l wanted (now ∷ times) b =
    let later = rounds l wanted times (round l wanted now b).1 in
    if (round l wanted now b).0 then some (now, (round l wanted now b).1) else later

-- `sleep((tokens - bucket.tokens) / rate)`: the time at which the next round may read the clock.
unfoldable pub is_slept : RateLimit → ℕ → ℕ → ℕ → DomainBucket → Bool
unfolding parts_at
is_slept l wanted now later b = leb (wanted - parts_at l now b) ((later - now) * l.rate)

pub data AcquireError : Type 0 where
  not_positive : AcquireError
  over_capacity : AcquireError

-- What acquire refuses before it takes a bucket.
unfoldable pub check_wanted : RateLimit → ℕ → Option AcquireError
check_wanted l wanted =
    if wanted == 0
    then some not_positive
    else if ltb l.capacity wanted
    then some over_capacity
    else none

-- `popitem(last=False)` where there are as many buckets as may be.
unfoldable pub evicted : ℕ → List DomainBucket → List DomainBucket
evicted max_domains [] = []
evicted max_domains (b ∷ bs) = if leb max_domains (length (b ∷ bs)) then bs else b ∷ bs

unfoldable pub bucket_found :
    RateLimit
    → ℕ
    → ℕ
    → Text
    → List DomainBucket
    → Option DomainBucket
    → DomainBucket × List DomainBucket
unfolding evicted
bucket_found l max_domains now name bs (some b) =
    (b, keep (λ c. not (c.domain == name)) bs ++ (b ∷ []))
bucket_found l max_domains now name bs none =
    let new : DomainBucket = record { domain = name; parts = l.capacity; updated_at = now } in
    (new, evicted max_domains bs ++ (new ∷ []))

-- _bucket: the domain's, moved to the end, or a full new one at the end.
unfoldable pub domain_bucket :
    RateLimit → ℕ → ℕ → Text → List DomainBucket → DomainBucket × List DomainBucket
unfolding bucket_found
domain_bucket l max_domains now name bs =
    bucket_found l max_domains now name bs (find (λ b. b.domain == name) bs)
