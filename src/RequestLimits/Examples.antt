-- ===== src/RequestLimits/Examples.antt =====
-- Runs of the limits on small inputs.
use job_ping.RequestLimits.Messages.{Message, receive_all, duration, window}
use job_ping.RequestLimits.Messages.{guarded_receive}
use job_ping.RequestLimits.TokenBucket.{Rate, Bucket, token_bucket, whole_token, full}
use job_ping.RequestLimits.Refill.{count_allowed, total, rate_bound}
use job_ping.RequestLimits.LeaseScripts.{Key, Store, no_members, lease_acquire}
use job_ping.RequestLimits.LeaseBounds.{Runs, WithinLimits, Runs-WithinLimits}
use job_ping.RequestLimits.Renewal.{
  Evaluation, Reply, renew_until_lost, begun, InTime, renewal_before_expiry,
}
use job_ping.RequestLimits.Policies.{policy}
use job_ping.RequestLimits.Settings.{
  Mode, LimitSettings, default_settings, is_valid_settings, Mode-discrete,
}
use job_ping.RequestLimits.Limiter.{Counts}
use job_ping.RequestLimits.Middleware.{Request, Replies, limit_request, operation, is_local_health}
use job_ping.RequestLimits.Admission.{is_served, has_room, enforce_serves, buckets_allow}
use job_ping.RequestLimits.Cache.{Entries, put_response}
use job_ping.RequestLimits.CacheSoundness.{IsSound, put_response-IsSound}
use job_ping.Base.{
  ℕ, ◌+◌, ◌*◌, ◌≤◌, ◌<◌, ◌≡◌, refl, true, false, ◌&&◌, Option, none, some, List, [], ◌∷◌, arith,
  Text, codes,
}

-- One token a second, two at once.
abbrev slow : Rate
slow = policy 1 1 2

-- Three calls at once and one a second later: three are allowed.
burst_allowed : count_allowed slow 0 (0 ∷ 0 ∷ 0 ∷ 1000000 ∷ []) none ≡ 3
unfolding count_allowed
burst_allowed = refl

rate_bound_example :
    count_allowed slow 0 (0 ∷ 0 ∷ 0 ∷ 1000000 ∷ []) none * whole_token slow
    ≤ full slow + total (0 ∷ 0 ∷ 0 ∷ 1000000 ∷ []) * 1
rate_bound_example = rate_bound slow (omega arith) 0 (0 ∷ 0 ∷ 0 ∷ 1000000 ∷ [])

abbrev drained : Option Bucket
drained = some (record { tokens = 200000; at = 5; expires = 9000000 })

drained_refuses : (token_bucket slow 5 drained).0.is_allowed ≡ false
unfolding token_bucket
drained_refuses = refl

drained_retry : (token_bucket slow 5 drained).0.retry ≡ 1
unfolding token_bucket
drained_retry = refl

abbrev nothing : Store
nothing _ = no_members

abbrev one_stream : Store
one_stream = (lease_acquire 10 60 1 5 "t1" (Key.streams "a") Key.streams_global nothing).1

first_leased : (lease_acquire 10 60 1 5 "t1" (Key.streams "a") Key.streams_global nothing).0 ≡ true
unfolding lease_acquire
first_leased = refl

second_refused :
    (lease_acquire 20 60 1 5 "t2" (Key.streams "a") Key.streams_global one_stream).0 ≡ false
unfolding lease_acquire
second_refused = refl

two_asked :
    Runs 1 5 20 (lease_acquire 20 60 1 5 "t2" (Key.streams "a") Key.streams_global one_stream).1
two_asked = Runs.acquired (Runs.wait (Runs.acquired Runs.start 60 "t1" "a") 10) 60 "t2" "a"

Runs-WithinLimits_example :
    WithinLimits 1 5 20
      (lease_acquire 20 60 1 5 "t2" (Key.streams "a") Key.streams_global one_stream).1
Runs-WithinLimits_example = Runs-WithinLimits 1 5 (omega arith) (omega arith) two_asked

abbrev silent : Evaluation
silent = record { reply = Reply.unavailable; ran = 0; took = 5 }

silent_twice : InTime 5 (silent ∷ silent ∷ [])
unfolding InTime
silent_twice = (omega arith, omega arith, (omega arith, omega arith, tt))

renewal_before_expiry_example :
    let l = renew_until_lost 20 (silent ∷ silent ∷ []) (begun 100 2) in
    l.now < l.granted_at + 3 * 20
renewal_before_expiry_example =
    renewal_before_expiry 20 5 100 2 (silent ∷ silent ∷ []) (omega arith) silent_twice (omega arith)

-- With the longest timeout and the shortest lease that the settings allow, in thirds of a second, two
-- failures end after the lease has.
abbrev slow_failure : Evaluation
slow_failure = record { reply = Reply.unavailable; ran = 0; took = 15 }

late_close : (renew_until_lost 6 (slow_failure ∷ slow_failure ∷ []) (begun 100 0)).now ≡ 142
unfolding renew_until_lost
late_close = refl

abbrev settings : Mode → LimitSettings
settings mode = record default_settings { mode = mode; secret_bytes = 32 }

settings_valid : is_valid_settings (settings Mode.enforce) ≡ true
unfolding is_valid_settings Mode-discrete
settings_valid = refl

abbrev jobs_request : Request
jobs_request = record {
  is_http = true;
  is_websocket = false;
  path = codes "/api/v1/jobs";
  method = some (codes "GET");
  client = codes "203.0.113.9";
  has_query = false;
  has_credentials = false;
}

abbrev yes_to_all : Replies
yes_to_all = record {
  bucket = λ _. some (record { is_allowed = true; retry = 0 });
  lease = some true;
  unlimited_lease = none;
}

abbrev down : Replies
down = record { bucket = λ _. none; lease = none; unlimited_lease = none }

abbrev zero_counts : Counts
zero_counts _ _ = 0

enforce_serves_example :
    is_served (limit_request (settings Mode.enforce) 31 jobs_request down zero_counts).0 ≡ (
      buckets_allow down (operation jobs_request)
      && has_room (settings Mode.enforce) 31 (operation jobs_request) down)
unfolding is_local_health
enforce_serves_example =
    enforce_serves (settings Mode.enforce) 31 jobs_request down zero_counts refl refl refl

abbrev reply_headers : List (Text × Text)
reply_headers =
    (codes "Content-Type", codes "json") ∷ (codes "Access-Control-Allow-Origin", codes "*") ∷ []

abbrev no_entries : Entries
no_entries = []

abbrev one_entry : Entries
one_entry = put_response 30 2 100 (codes "/api/v1/stats") reply_headers (codes "ok") no_entries

empty-IsSound : IsSound 2 no_entries
empty-IsSound = record { bounded = omega arith; all_public = tt }

put_response-IsSound_example : IsSound 2 one_entry
put_response-IsSound_example =
    put_response-IsSound 30 2 100 (codes "/api/v1/stats") reply_headers (codes "ok") no_entries
      empty-IsSound

abbrev quick : Message
quick = record { gap = 400000; size = 12 }

abbrev two_quick : List ℕ
two_quick = 400000 ∷ 800000 ∷ []

two_received : receive_all 0 (quick ∷ quick ∷ []) [] ≡ some two_quick
unfolding receive_all guarded_receive
two_received = refl

three_received : receive_all 5600000 (quick ∷ []) two_quick ≡ some (6000000 ∷ [])
unfolding receive_all guarded_receive
three_received = refl

short_duration : duration (quick ∷ []) < window
unfolding duration
short_duration = omega arith
