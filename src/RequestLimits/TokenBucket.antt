-- ===== src/RequestLimits/TokenBucket.antt =====
-- app/request_limits/scripts.py TOKEN_BUCKET: the Redis script that admits one request.
-- Times are whole microseconds, the unit of Redis TIME. A rate is the fraction `numerator / seconds`
-- of tokens per second, and a fill level counts parts of a token, `10 ^ 6 * seconds` to the token, so
-- that the script's sums are exact; the double arithmetic of Lua is not modelled.
use job_ping.Base.{
  ℕ, ◌+◌, ◌-◌, ◌*◌, ◌/◌, min, max, Bool, true, false, Option, none, some, leb, if◌then◌else◌,
}

abbrev pub second : ℕ
second = 1000000

-- math.ceil(a / b) for a positive b.
unfoldable pub ceil_div : ℕ → ℕ → ℕ
ceil_div a b = (a + (b - 1)) / b

-- ARGV[1] and ARGV[2], as app/request_limits/policies.py Policy holds them.
pub record Rate : Type 0 where
  pub numerator : ℕ
  pub seconds : ℕ
  pub burst : ℕ

unfoldable pub whole_token : Rate → ℕ
whole_token r = second * r.seconds

unfoldable pub full : Rate → ℕ
unfolding whole_token
full r = r.burst * whole_token r

-- The hash at KEYS[1], with the time at which EXPIRE lets Redis drop it.
pub record Bucket : Type 0 where
  pub tokens : ℕ
  pub at : ℕ
  pub expires : ℕ

-- HMGET of a key: nothing once the key has expired.
unfoldable pub read_bucket : ℕ → Option Bucket → Option Bucket
read_bucket now none = none
read_bucket now (some b) = if leb b.expires now then none else some b

-- `math.min(burst, tokens + math.max(0, now - at) * rate)`
unfoldable pub refilled : Rate → ℕ → Option Bucket → ℕ
unfolding full
refilled r now none = full r
refilled r now (some b) = min (full r) (b.tokens + (now - b.at) * r.numerator)

unfoldable pub lifetime : Rate → ℕ
unfolding ceil_div
lifetime r = max 1 (ceil_div (r.burst * r.seconds) r.numerator)

pub record Admission : Type 0 where
  pub is_allowed : Bool
  pub retry : ℕ

unfoldable pub seconds_short : Rate → ℕ → ℕ
unfolding ceil_div whole_token
seconds_short r tokens = ceil_div (whole_token r - tokens) (second * r.numerator)

-- What the script leaves at the key.
unfoldable pub keep_bucket : Rate → ℕ → ℕ → Bucket
unfolding lifetime
keep_bucket r now tokens = record { tokens = tokens; at = now; expires = now + second * lifetime r }

unfoldable pub take_token : Rate → ℕ → ℕ → Admission × Bucket
unfolding keep_bucket whole_token seconds_short
take_token r now tokens =
    if leb (whole_token r) tokens
    then (record { is_allowed = true; retry = 0 }, keep_bucket r now (tokens - whole_token r))
    else (record { is_allowed = false; retry = seconds_short r tokens }, keep_bucket r now tokens)

unfoldable pub token_bucket : Rate → ℕ → Option Bucket → Admission × Bucket
unfolding read_bucket refilled take_token
token_bucket r now state = take_token r now (refilled r now (read_bucket now state))
