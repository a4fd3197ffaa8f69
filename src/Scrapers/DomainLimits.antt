-- ===== src/Scrapers/DomainLimits.antt =====
-- What app/utils/rate_limiter.py DomainRateLimiter promises: a request is let through after its sleep, no more requests
-- than the rate allows are, and the buckets stay few.
use job_ping.Base.{
  ℕ, ◌+◌, ◌-◌, ◌*◌, ◌≤◌, ◌≡◌, refl, inl, inr, true, none, some, List, [], ◌∷◌, arith, length, leb,
  if◌then◌else◌, Bool-cases, sym, ap, ◌∙◌, not, Option, length-append, keep, find, length-keep-le,
  Text, ◌==◌, nat_eq, list_eq,
}
use job_ping.Scrapers.DomainLimiter.{
  parts_at, rounds, round, RateLimit, DomainBucket, refreshed, check_wanted, is_slept, evicted,
  domain_bucket, bucket_found,
}
use mathlib.Core.Path.{subst}

refills :
    (l : RateLimit) (wanted now later : ℕ) (b : DomainBucket)
    → now ≤ later
    → wanted ≤ l.capacity
    → is_slept l wanted now later b ≡ true
    → wanted ≤ parts_at l later (refreshed now (parts_at l now b) b)
unfolding parts_at refreshed is_slept
refills l wanted now later b h k s = ground arith

-- A request for no more than the capacity that finds too few tokens passes in its next round, once it has slept for
-- what it was told to, where no other request takes from the bucket in between.
pub passes_after_sleep :
    (l : RateLimit) (wanted now later : ℕ) (b : DomainBucket)
    → check_wanted l wanted ≡ none
    → now ≤ later
    → is_slept l wanted now later b ≡ true
    → (t : ℕ) × (c : DomainBucket) × (rounds l wanted (now ∷ later ∷ []) b ≡ some (t, c))
      × (t ≤ later)
unfolding rounds round check_wanted
passes_after_sleep l wanted now later b h k s =
    let r = refills l wanted now later b k (ground arith) s in
    elim (Bool-cases (leb wanted (parts_at l now b))) [
      | inl e ↦ (now, refreshed now (parts_at l now b - wanted) b, rw e refl, k)
      | inr e ↦
          let c = refreshed now (parts_at l now b) b in
          let f : leb wanted (parts_at l later c) ≡ true = ground arith in
          (later, refreshed later (parts_at l later c - wanted) c, rw e (rw f refl), omega arith)
    ]

-- A request that a round serves or refuses: when, and for how much.
abbrev pub Requests : Type 0
Requests = List (ℕ × ℕ)

-- What the rounds of all requests grant together, and the bucket they leave.
unfoldable pub granted_to : RateLimit → Requests → DomainBucket → ℕ × DomainBucket
unfolding round
granted_to l [] b = (0, b)
granted_to l ((now, wanted) ∷ rs) b =
    let r = round l wanted now b in
    let rest = granted_to l rs r.1 in ((if r.0 then wanted else 0) + rest.0, rest.1)

-- The clock does not go back.
abbrev pub IsOrdered : ℕ → Requests → Type 0
IsOrdered t [] = Unit {0}
IsOrdered t ((now, wanted) ∷ rs) = (t ≤ now) × IsOrdered now rs

abbrev pub last_time : ℕ → Requests → ℕ
last_time t [] = t
last_time t ((now, wanted) ∷ rs) = last_time now rs

round-parts :
    (l : RateLimit) (wanted now : ℕ) (b : DomainBucket)
    → ((if (round l wanted now b).0 then wanted else 0) + (round l wanted now b).1.parts
        ≤ b.parts + (now - b.updated_at) * l.rate)
      × ((round l wanted now b).1.updated_at ≡ now)
unfolding round parts_at refreshed
round-parts l wanted now b = (ground arith, ground arith)

last_time-le : (t : ℕ) (rs : Requests) → IsOrdered t rs → t ≤ last_time t rs
last_time-le t [] h = omega arith
last_time-le t ((now, wanted) ∷ rs) h = omega (arith, h.0, last_time-le now rs h.1)

split_time : (a n t r : ℕ) → a ≤ n → n ≤ t → (t - a) * r ≡ (t - n) * r + (n - a) * r
split_time a n t r h k =
    let e : t - a ≡ (t - n) + (n - a) = omega arith in ap (λ (x : ℕ). x * r) e ∙ omega arith

-- Whatever requests there are and however they interleave, what is granted of a bucket and what it still holds are at
-- most what it held and what the rate made in the time.
pub granted_bound :
    (l : RateLimit) (rs : Requests) (b : DomainBucket)
    → IsOrdered b.updated_at rs
    → (granted_to l rs b).0 + (granted_to l rs b).1.parts
      ≤ b.parts + (last_time b.updated_at rs - b.updated_at) * l.rate
unfolding granted_to
granted_bound l [] b h = omega arith
granted_bound l ((now, wanted) ∷ rs) b h =
    let k = round-parts l wanted now b in
    let c = (round l wanted now b).1 in
    let o : IsOrdered c.updated_at rs = subst (λ (t : ℕ). IsOrdered t rs) (sym k.1) h.1 in
    let ih = granted_bound l rs c o in
    let at_now : (last_time c.updated_at rs - c.updated_at) * l.rate
        ≡ (last_time now rs - now) * l.rate =
      ap (λ (t : ℕ). (last_time t rs - t) * l.rate) k.1 in
    let split =
      split_time b.updated_at now (last_time now rs) l.rate h.0 (last_time-le now rs h.1) in
    omega (arith, ih, at_now, split, k.0)

without-shorter :
    (name : Text) (bs : List DomainBucket) (b : DomainBucket)
    → find (λ (c : DomainBucket). c.domain == name) bs ≡ some b
    → length (keep (λ (c : DomainBucket). not (c.domain == name)) bs) + 1 ≤ length bs
without-shorter name [] b h = absurd (ground arith)
without-shorter name (c ∷ bs) b h = ground (
  arith,
  length-keep-le (λ (c : DomainBucket). not (c.domain == name)) bs,
  without-shorter name bs b,
)

evicted-length :
    (n : ℕ) (bs : List DomainBucket) → 1 ≤ n → length bs ≤ n → length (evicted n bs) + 1 ≤ n
unfolding evicted
evicted-length n [] h k = h
evicted-length n (b ∷ bs) h k = ground arith

-- The limiter keeps no more buckets than it may, whatever domains are asked for.
pub buckets_bounded :
    (l : RateLimit) (max_domains now : ℕ) (name : Text) (bs : List DomainBucket)
    → 1 ≤ max_domains
    → length bs ≤ max_domains
    → length (domain_bucket l max_domains now name bs).1 ≤ max_domains
unfolding domain_bucket
buckets_bounded l n now name bs h k = go (find (λ c. c.domain == name) bs) refl
  where
    go :
        (o : Option DomainBucket)
        → find (λ c. c.domain == name) bs ≡ o
        → length (bucket_found l n now name bs o).1 ≤ n
    go none e =
        let new : DomainBucket = record { domain = name; parts = l.capacity; updated_at = now } in
        omega (arith, length-append (evicted n bs) (new ∷ []), evicted-length n bs h k)
    go (some b) e =
        let rest = keep (λ (c : DomainBucket). not (c.domain == name)) bs in
        omega (arith, length-append rest (b ∷ []), without-shorter name bs b e)
