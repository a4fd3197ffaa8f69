-- ===== src/RequestLimits/Policies.antt =====
-- app/request_limits/policies.py: the operation families, their default policies, and the family of a
-- request. A rate is an exact fraction, where the source has a double.
use job_ping.RequestLimits.TokenBucket.{Rate}
use job_ping.Base.{
  ℕ, Bool, ◌&&◌, ◌||◌, [], ◌∷◌, Text, codes, starts_with, ltb, leb, if◌then◌else◌, ◌==◌,
  discrete_eq, elem, Eq, nat_eq, list_eq,
}

pub data Family : Type 0 where
  ingress : Family
  aggregate : Family
  public : Family
  private_read : Family
  private_write : Family
  analytics : Family
  connect : Family
  webhook : Family
  unsubscribe : Family
  preflight : Family

unfoldable pub Family-discrete : Discrete Family
Family-discrete = hlevel

instance abbrev pub family_eq : Eq Family
family_eq = discrete_eq Family-discrete

abbrev pub policy : ℕ → ℕ → ℕ → Rate
policy numerator seconds burst = record { numerator = numerator; seconds = seconds; burst = burst }

-- Policy.__post_init__
unfoldable pub is_valid_policy : Rate → Bool
is_valid_policy r = ltb 0 r.numerator && ltb 0 r.seconds && leb 1 r.burst && leb r.burst 100000

unfoldable pub default_policies : Family → Rate
default_policies Family.ingress = policy 10 1 50
default_policies Family.aggregate = policy 100 1 100
default_policies Family.public = policy 2 1 20
default_policies Family.private_read = policy 2 1 20
default_policies Family.private_write = policy 20 60 5
default_policies Family.analytics = policy 1 1 10
default_policies Family.connect = policy 20 60 5
default_policies Family.webhook = policy 10 1 50
default_policies Family.unsubscribe = policy 1 1 5
default_policies Family.preflight = policy 5 1 20

unfoldable pub family : Text → Text → Family
family path method =
    if method == codes "OPTIONS"
    then Family.preflight
    else if path == codes "/api/v1/ws/live" || path == codes "/api/v1/sse/feed"
    then Family.connect
    else if starts_with (codes "/api/v1/notifications/webhooks/") path
    then Family.webhook
    else if starts_with (codes "/api/v1/notifications/unsubscribe/") path
    then Family.unsubscribe
    else if starts_with (codes "/api/v1/me/") path || starts_with (codes "/api/v1/analytics/") path
    then (if path == codes "/api/v1/analytics/events"
        then Family.analytics
        else if method == codes "GET" || method == codes "HEAD"
        then Family.private_read
        else Family.private_write)
    else Family.public

unfoldable pub private_family : Family → Bool
private_family f = elem f (Family.private_read ∷ Family.private_write ∷ Family.analytics ∷ [])
