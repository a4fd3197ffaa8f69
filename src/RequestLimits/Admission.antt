-- ===== src/RequestLimits/Admission.antt =====
-- What app/request_limits/middleware.py admits, by the mode of the limits.
use job_ping.RequestLimits.TokenBucket.{Admission}
use job_ping.RequestLimits.Policies.{Family, family_eq, private_family}
use job_ping.RequestLimits.Settings.{Mode, mode_eq, LimitSettings, Mode-discrete}
use job_ping.RequestLimits.Limiter.{Counts, check, acquire_lease, decision, LimiterUnavailable}
use job_ping.RequestLimits.Middleware.{
  Request, Replies, Verdict, check_all, checked_families, dispatch, limit_request, operation,
  is_local_health, on_checks, on_lease,
}
use job_ping.Base.{
  ℕ, ◌≡◌, refl, Bool, true, false, ◌&&◌, Option, none, some, List, [], ◌∷◌, ltb, if◌then◌else◌,
  ◌==◌, Result, ok, nat_eq, option_eq, ap, ◌∙◌, inl, inr, ◌||◌, Bool-cases, Option-cases, err,
  arith,
}

unfoldable pub is_served : Verdict → Bool
is_served Verdict.serve = true
is_served Verdict.serve_stream = true
is_served _ = false

unfoldable pub is_rejected : Verdict → Bool
is_rejected Verdict.reject_busy = true
is_rejected (Verdict.reject_limit _) = true
is_rejected _ = false

unfoldable pub bucket_allows : Option Admission → Bool
bucket_allows none = false
bucket_allows (some a) = a.is_allowed

unfoldable pub all_allow : Replies → List Family → Bool
unfolding bucket_allows
all_allow replies [] = true
all_allow replies (f ∷ fs) = bucket_allows (replies.bucket f) && all_allow replies fs

unfoldable pub lease_given : Option Bool → Bool
lease_given none = false
lease_given (some b) = b

-- The room that a request needs: a lease for a stream, or less than the limit being served.
unfoldable pub has_room : LimitSettings → ℕ → Family → Replies → Bool
has_room s active f replies =
    if f == Family.connect then lease_given replies.lease else ltb active s.http_concurrency

passed : Result LimiterUnavailable (Option ℕ) → Bool
passed (ok none) = true
passed _ = false

passed-check_all :
    (replies : Replies) (fs : List Family) (c : Counts)
    → passed (check_all Mode.enforce replies fs c).0 ≡ all_allow replies fs
unfolding passed check_all all_allow check decision Mode-discrete
passed-check_all replies [] c = refl
passed-check_all replies (f ∷ fs) c = elim (Option-cases (replies.bucket f)) [
  | inl silent ↦ rw silent refl
  | inr (a, reply) ↦ elim (Bool-cases a.is_allowed) [
    | inl allows ↦ rw (reply, allows) (passed-check_all replies fs _)
    | inr refuses ↦ rw (reply, refuses) refl
  ]
]

served-on_checks :
    (s : LimitSettings) (active : ℕ) (f : Family) (replies : Replies)
    (r : Result LimiterUnavailable (Option ℕ)) (c : Counts)
    → is_served (on_checks r c (dispatch Mode.enforce s active f replies)).0
      ≡ (passed r && has_room s active f replies)
unfolding passed is_served has_room dispatch acquire_lease lease_given Mode-discrete
served-on_checks s active f replies (err x) c = refl
served-on_checks s active f replies (ok (some n)) c = refl
served-on_checks s active f replies (ok none) c = elim (Bool-cases (f == Family.connect)) [
  | inl stream ↦ rw stream (leased replies.lease)
  | inr plain ↦ rw plain (ground arith)
]
  where
    leased :
        (lease : Option Bool)
        → is_served (
            on_lease Mode.enforce s.lease_seconds
              (acquire_lease Mode.enforce lease replies.unlimited_lease c).0)
          ≡ lease_given lease
    leased none = refl
    leased (some true) = refl
    leased (some false) = refl

-- What every request counts against, and its family's bucket unless the family is private.
unfoldable pub buckets_allow : Replies → Family → Bool
buckets_allow replies f =
    bucket_allows (replies.bucket Family.aggregate)
    && bucket_allows (replies.bucket Family.ingress)
    && (private_family f || bucket_allows (replies.bucket f))

all_allow-checked_families :
    (replies : Replies) (f : Family)
    → all_allow replies (checked_families f) ≡ buckets_allow replies f
unfolding all_allow checked_families buckets_allow
all_allow-checked_families replies f = ground arith

-- Where the limits are enforced, a web request that is not the local health check is served or streamed
-- exactly when the buckets that it counts against allow it (the global one, its address's and, outside
-- the private families, its family's) and it got its lease or there is room for it. A bucket that does
-- not reply allows nothing.
pub enforce_serves :
    (s : LimitSettings) (active : ℕ) (q : Request) (replies : Replies) (c : Counts)
    → s.mode ≡ Mode.enforce
    → (q.is_http || q.is_websocket) ≡ true
    → is_local_health q ≡ false
    → is_served (limit_request s active q replies c).0
      ≡ (buckets_allow replies (operation q) && has_room s active (operation q) replies)
unfolding limit_request Mode-discrete
enforce_serves s active q replies c e web remote =
    let (checks, after) = check_all Mode.enforce replies (checked_families (operation q)) c in
    simp (web, e, remote)
      (served-on_checks s active (operation q) replies checks after
        ∙ ap (λ b. b && has_room s active (operation q) replies)
            (passed-check_all replies (checked_families (operation q)) c
              ∙ all_allow-checked_families replies (operation q)))

dispatch-shadow :
    (s : LimitSettings) (active : ℕ) (f : Family) (replies : Replies) (c : Counts)
    → is_rejected (dispatch Mode.shadow s active f replies c).0 ≡ false
unfolding is_rejected dispatch acquire_lease Mode-discrete
dispatch-shadow s active f replies c = ground arith

shadow-check_all :
    (replies : Replies) (fs : List Family) (c : Counts)
    → (check_all Mode.shadow replies fs c).0 ≡ ok none
unfolding check_all check Mode-discrete
shadow-check_all replies [] c = refl
shadow-check_all replies (f ∷ fs) c = elim (Option-cases (replies.bucket f)) [
  | inl silent ↦ rw silent (shadow-check_all replies fs _)
  | inr (a, reply) ↦ rw reply (shadow-check_all replies fs _)
]

-- In shadow mode no request is rejected, whatever Redis replies and however many are being served.
pub shadow_rejects_none :
    (s : LimitSettings) (active : ℕ) (q : Request) (replies : Replies) (c : Counts)
    → s.mode ≡ Mode.shadow
    → is_rejected (limit_request s active q replies c).0 ≡ false
unfolding limit_request is_rejected Mode-discrete
shadow_rejects_none s active q replies c e = ground (
  arith,
  shadow-check_all replies (checked_families (operation q)) c,
  dispatch-shadow s active (operation q) replies
      (check_all Mode.shadow replies (checked_families (operation q)) c).1,
)
