-- ===== src/RequestLimits/Middleware.antt =====
-- app/request_limits/middleware.py RequestLimitMiddleware: what it does with one request. The wrapped
-- application and the stream's supervision are verdicts; Redis's replies are arguments.
use job_ping.RequestLimits.TokenBucket.{Admission}
use job_ping.RequestLimits.Policies.{Family, family, private_family, family_eq}
use job_ping.RequestLimits.Settings.{Mode, mode_eq, LimitSettings}
use job_ping.RequestLimits.Limiter.{
  Limited, Counts, Decision, check, acquire_lease, LimiterUnavailable,
}
use job_ping.Base.{
  ℕ, Bool, true, false, not, ◌&&◌, ◌||◌, Option, none, some, List, [], ◌∷◌, pure, Text, codes, leb,
  if◌then◌else◌, ◌==◌, elem, Result, ok, err, ◌>>=◌, nat_eq, list_eq, option_eq,
}

-- The scope of a request: `path`, `method` (a websocket has none) and the fields that the middleware reads.
pub record Request : Type 0 where
  pub is_http : Bool
  pub is_websocket : Bool
  pub path : Text
  pub method : Option Text
  pub client : Text
  pub has_query : Bool
  pub has_credentials : Bool

-- `scope.get("method", "GET")`
unfoldable pub method_or_get : Request → Text
method_or_get q = elim q.method [ none ↦ codes "GET" | some m ↦ m ]

unfoldable pub operation : Request → Family
unfolding method_or_get
operation q = family q.path (method_or_get q)

-- What Redis replies to the request's evaluations, `none` for no trustworthy one.
pub record Replies : Type 0 where
  pub bucket : Family → Option Admission
  pub lease : Option Bool
  pub unlimited_lease : Option Bool

pub data Verdict : Type 0 where
  pass : Verdict
  reject_busy : Verdict
  reject_limit : ℕ → Verdict
  serve_stream : Verdict
  serve : Verdict

-- `path == "/api/v1/health" and method == "GET" and client in {"127.0.0.1", "::1"}`
unfoldable pub is_local_health : Request → Bool
is_local_health q =
    q.path == codes "/api/v1/health"
    && q.method == some (codes "GET")
    && elem q.client (codes "127.0.0.1" ∷ codes "::1" ∷ [])

-- `if not decision.allowed: reject 429; return`: the seconds that the rejection carries.
abbrev pub rejection : Decision → Option ℕ
rejection d = if d.is_allowed then none else some d.retry_after

-- The checks in the order of the code, up to the first that refuses.
unfoldable pub check_all : Mode → Replies → List Family → Limited (Option ℕ)
check_all mode replies [] = pure none
check_all mode replies (f ∷ fs) =
    let later = check_all mode replies fs in
    (do
      d ← check mode f (replies.bucket f)
      elim (rejection d) [ none ↦ later | some seconds ↦ pure (some seconds) ])

unfoldable pub checked_families : Family → List Family
checked_families f =
    Family.aggregate ∷ Family.ingress ∷ (if not (private_family f) then f ∷ [] else [])

abbrev pub on_lease : Mode → ℕ → Result LimiterUnavailable Bool → Verdict
on_lease mode seconds (err _) = if mode == Mode.shadow then Verdict.pass else Verdict.reject_busy
on_lease mode seconds (ok true) = Verdict.serve_stream
on_lease mode seconds (ok false) = Verdict.reject_limit seconds

-- The request after the checks passed, with `active` other requests being served.
unfoldable pub dispatch : Mode → LimitSettings → ℕ → Family → Replies → Counts → Verdict × Counts
dispatch mode s active f replies counts =
    if f == Family.connect
    then (let (leased, c) = acquire_lease mode replies.lease replies.unlimited_lease counts in
        (on_lease mode s.lease_seconds leased, c))
    else if leb s.http_concurrency active && mode == Mode.enforce
    then (Verdict.reject_busy, counts)
    else (Verdict.serve, counts)

abbrev pub on_checks :
    Result LimiterUnavailable (Option ℕ) → Counts → (Counts → Verdict × Counts) → Verdict × Counts
on_checks (err _) counts go = (Verdict.reject_busy, counts)
on_checks (ok (some seconds)) counts go = (Verdict.reject_limit seconds, counts)
on_checks (ok none) counts go = go counts

-- RequestLimitMiddleware.__call__ with a limiter in the application's state.
unfoldable pub limit_request : LimitSettings → ℕ → Request → Replies → Counts → Verdict × Counts
limit_request s active q replies counts =
    if not (q.is_http || q.is_websocket)
    then (Verdict.pass, counts)
    else if s.mode == Mode.off
    then (Verdict.pass, counts)
    else if is_local_health q
    then (Verdict.pass, counts)
    else (let (checks, c) = check_all s.mode replies (checked_families (operation q)) counts in
        on_checks checks c (dispatch s.mode s active (operation q) replies))

-- RequestLimitMiddleware.__call__ without one: the settings alone, if there are any.
unfoldable pub without_limiter : Option LimitSettings → Request → Verdict
without_limiter none q = Verdict.pass
without_limiter (some s) q =
    if not (q.is_http || q.is_websocket)
    then Verdict.pass
    else if not (s.mode == Mode.off)
    then Verdict.reject_busy
    else Verdict.pass

-- `eligible` of cached_request.
unfoldable pub is_cacheable : Request → Bool
is_cacheable q =
    q.is_http
    && q.method == some (codes "GET")
    && elem q.path (codes "/api/v1/companies" ∷ codes "/api/v1/stats" ∷ [])
    && not q.has_query
    && not q.has_credentials
