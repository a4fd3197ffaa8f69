-- ===== src/RequestLimits/Refill.antt =====
-- What the token bucket of app/request_limits/scripts.py promises over time.
use mathlib.Core.Bool.{true≢false}
use native.Mathlib.Nat.{lt-div-mul-add, mul-le-mul_right, div-mul-le_self}
use job_ping.RequestLimits.TokenBucket.{
  Rate, Bucket, token_bucket, take_token, refilled, read_bucket, keep_bucket, whole_token, full,
  ceil_div, lifetime, seconds_short, second,
}
use job_ping.Base.{
  ℕ, suc, ◌+◌, ◌-◌, ◌*◌, ◌/◌, ◌≤◌, ◌<◌, min, max, ◌≡◌, some, arith, true, false, Option, none, List,
  [], ◌∷◌, if◌then◌else◌, inl, inr, leb, leb→le, Bool-cases, refl, sym, ap, ◌∙◌, le→leb,
}

pub le-ceil_div : (a b : ℕ) → 0 < b → a ≤ ceil_div a b * b
unfolding ceil_div
le-ceil_div a b pos = omega (arith, lt-div-mul-add {a = a + (b - 1)} pos)

pub ceil_div-least : (a b c : ℕ) → 0 < b → c < ceil_div a b → c * b < a
unfolding ceil_div
ceil_div-least a b c pos h = omega (
  arith,
  div-mul-le_self (a + (b - 1)) b,
  mul-le-mul_right {m = suc c} {n = (a + (b - 1)) / b} b h,
)

module _ (r : Rate) (flows : 0 < r.numerator) where
  -- When a key expires its bucket has had the time to fill up.
  full-lifetime : full r ≤ second * lifetime r * r.numerator
  unfolding full lifetime whole_token
  full-lifetime = omega (
    arith,
    le-ceil_div (r.burst * r.seconds) r.numerator flows,
    mul-le-mul_right {m = ceil_div (r.burst * r.seconds) r.numerator}
        {n = max 1 (ceil_div (r.burst * r.seconds) r.numerator)} r.numerator (omega arith),
  )

  expired-full : (gap : ℕ) → second * lifetime r ≤ gap → full r ≤ gap * r.numerator
  expired-full gap h = omega (arith, full-lifetime, mul-le-mul_right r.numerator h)

  -- The expiry of a key is no different from a refill: what the next call finds, however late, is the
  -- level that was left plus the rate times the time since, up to the burst.
  pub refill_after :
      (now gap tokens : ℕ)
      → refilled r (now + gap) (read_bucket (now + gap) (some (keep_bucket r now tokens)))
        ≡ min (full r) (tokens + gap * r.numerator)
  unfolding refilled read_bucket keep_bucket
  refill_after now gap tokens = ground (arith, expired-full gap)

-- Calls one after the other, each `gap` microseconds after the one before: how many were allowed.
unfoldable pub count_allowed : Rate → ℕ → List ℕ → Option Bucket → ℕ
unfolding token_bucket
count_allowed r now [] state = 0
count_allowed r now (gap ∷ gaps) state =
    let (answer, bucket) = token_bucket r (now + gap) state in
    let rest = count_allowed r (now + gap) gaps (some bucket) in
    if answer.is_allowed then suc rest else rest

unfoldable pub total : List ℕ → ℕ
total [] = 0
total (gap ∷ gaps) = gap + total gaps

module _ (r : Rate) (flows : 0 < r.numerator) where
  -- One call at a level: an allowed one pays for itself.
  count_level :
      (now level : ℕ) (gaps : List ℕ)
      → ((tokens : ℕ)
          → count_allowed r now gaps (some (keep_bucket r now tokens)) * whole_token r
            ≤ tokens + total gaps * r.numerator)
      → (let (answer, bucket) = take_token r now level in
            let rest = count_allowed r now gaps (some bucket) in
            if answer.is_allowed then suc rest else rest)
          * whole_token r
        ≤ level + total gaps * r.numerator
  unfolding take_token
  count_level now level gaps bound = elim (Bool-cases (leb (whole_token r) level)) [
    | inl enough ↦
        rw enough
          (omega (arith, bound (level - whole_token r), leb→le (whole_token r) level enough))
    | inr short ↦ rw short (bound level)
  ]

  count_after :
      (now tokens : ℕ) (gaps : List ℕ)
      → count_allowed r now gaps (some (keep_bucket r now tokens)) * whole_token r
        ≤ tokens + total gaps * r.numerator
  unfolding count_allowed total token_bucket
  count_after now tokens [] = omega arith
  count_after now tokens (gap ∷ gaps) = omega (
    arith,
    refill_after r flows now gap tokens,
    count_level (now + gap)
        (refilled r (now + gap) (read_bucket (now + gap) (some (keep_bucket r now tokens)))) gaps
        (λ t. count_after (now + gap) t gaps),
  )

  -- At a positive rate, whatever the arrivals, from a fresh key on no more calls are allowed than the
  -- burst plus the rate times the time that they take.
  pub rate_bound :
      (now : ℕ) (gaps : List ℕ)
      → count_allowed r now gaps none * whole_token r ≤ full r + total gaps * r.numerator
  unfolding count_allowed total token_bucket refilled read_bucket
  rate_bound now [] = omega arith
  rate_bound now (gap ∷ gaps) =
      omega (arith, count_level (now + gap) (full r) gaps (λ t. count_after (now + gap) t gaps))

  token_bucket_level :
      (now : ℕ) (state : Option Bucket)
      → token_bucket r now state ≡ take_token r now (refilled r now (read_bucket now state))
  unfolding token_bucket
  token_bucket_level now state = refl

  allowed_level :
      (now level : ℕ) → (take_token r now level).0.is_allowed ≡ leb (whole_token r) level
  unfolding take_token
  allowed_level now level = elim (Bool-cases (leb (whole_token r) level)) [
    | inl enough ↦ rw enough refl
    | inr short ↦ rw short refl
  ]

  allowed_after :
      (now gap level : ℕ)
      → (token_bucket r (now + gap) (some (keep_bucket r now level))).0.is_allowed
        ≡ leb (whole_token r) (min (full r) (level + gap * r.numerator))
  unfolding token_bucket
  allowed_after now gap level =
      allowed_level (now + gap)
        (refilled r (now + gap) (read_bucket (now + gap) (some (keep_bucket r now level))))
      ∙ ap (leb (whole_token r)) (refill_after r flows now gap level)

  wait_enough :
      (level : ℕ)
      → 1 ≤ r.burst
      → whole_token r ≤ min (full r) (level + second * seconds_short r level * r.numerator)
  unfolding full seconds_short
  wait_enough level burst = omega (
    arith,
    le-ceil_div (whole_token r - level) (second * r.numerator) (omega arith),
    mul-le-mul_right {m = 1} {n = r.burst} (whole_token r) burst,
  )

  wait_short :
      (level k : ℕ) → k < seconds_short r level → level + second * k * r.numerator < whole_token r
  unfolding seconds_short
  wait_short level k h =
      omega (arith, ceil_div-least (whole_token r - level) (second * r.numerator) k (omega arith) h)

  refused_keeps :
      (now level : ℕ)
      → (take_token r now level).0.is_allowed ≡ false
      → take_token r now level
        ≡ (record { is_allowed = false; retry = seconds_short r level }, keep_bucket r now level)
  unfolding take_token
  refused_keeps now level h = elim (Bool-cases (leb (whole_token r) level)) [
    | inl enough ↦ absurd (true≢false (sym (allowed_level now level ∙ enough) ∙ h))
    | inr short ↦ rw short refl
  ]

  -- At a positive rate and a burst of one or more, a refused caller that comes back after the seconds
  -- that it was told, with no call between, is allowed, and after any smaller number it is refused.
  pub retry_exact :
      (now : ℕ) (state : Option Bucket)
      → 1 ≤ r.burst
      → (token_bucket r now state).0.is_allowed ≡ false
      → let (answer, bucket) = token_bucket r now state in
        ((token_bucket r (now + second * answer.retry) (some bucket)).0.is_allowed ≡ true)
        × ((k : ℕ)
            → k < answer.retry
            → (token_bucket r (now + second * k) (some bucket)).0.is_allowed ≡ false)
  retry_exact now state burst h =
      let level = refilled r now (read_bucket now state) in
      rw
        (token_bucket_level now state
          ∙ refused_keeps now level
              (ap (λ x. x.0.is_allowed) (sym (token_bucket_level now state)) ∙ h))
        (
          allowed_after now (second * seconds_short r level) level
              ∙ le→leb (whole_token r) _ (wait_enough level burst),
          λ k less. allowed_after now (second * k) level ∙ ground (arith, wait_short level k less),
        )
