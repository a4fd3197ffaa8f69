-- ===== src/RequestLimits/Limiter.antt =====
-- app/request_limits/limiter.py RequestLimiter.check and app/request_limits/leases.py
-- StreamLeases.acquire. What Redis replies to a script is an argument, `none` where the evaluation
-- raises LimiterUnavailable; the counters are the state.
use job_ping.RequestLimits.TokenBucket.{Admission}
use job_ping.RequestLimits.Policies.{Family, family_eq}
use job_ping.RequestLimits.Settings.{Mode, mode_eq}
use job_ping.Base.{
  ℕ, suc, max, Bool, true, false, not, ◌&&◌, Option, none, some, Exec, pure, raise, modify,
  if◌then◌else◌, ◌==◌, discrete_eq, Eq, ◌>>=◌, ◌>>◌, nat_eq,
}

pub data Outcome : Type 0 where
  unavailable : Outcome
  allowed_call : Outcome
  rejected_call : Outcome
  shadow_rejected : Outcome
  capacity_rejected : Outcome

unfoldable pub Outcome-discrete : Discrete Outcome
Outcome-discrete = hlevel

instance abbrev pub outcome_eq : Eq Outcome
outcome_eq = discrete_eq Outcome-discrete

pub data LimiterUnavailable : Type 0 where
  limiter_unavailable : LimiterUnavailable

abbrev pub Counts : Type 0
Counts = Family → Outcome → ℕ

-- `self.counts[policy, outcome] += 1`
unfoldable pub count : Family → Outcome → Counts → Counts
count f o counts g p = if g == f && p == o then suc (counts g p) else counts g p

pub record Decision : Type 0 where
  pub is_allowed : Bool
  pub retry_after : ℕ

abbrev pub Limited : Type 0 → Type 0
Limited A = Exec LimiterUnavailable Counts A

abbrev pub let_through : Decision
let_through = record { is_allowed = true; retry_after = 0 }

unfoldable pub decision : Admission → Decision
decision a = record {
  is_allowed = a.is_allowed;
  retry_after = if a.is_allowed then 0 else max 1 a.retry;
}

unfoldable pub outcome : Mode → Decision → Outcome
outcome mode d =
    if d.is_allowed
    then Outcome.allowed_call
    else if mode == Mode.shadow
    then Outcome.shadow_rejected
    else Outcome.rejected_call

unfoldable pub check : Mode → Family → Option Admission → Limited Decision
unfolding count decision outcome
check mode f none = do
  modify (count f Outcome.unavailable)
  if mode == Mode.shadow then pure let_through else raise LimiterUnavailable.limiter_unavailable
check mode f (some a) = do
  modify (count f (outcome mode (decision a)))
  pure (if mode == Mode.shadow then let_through else decision a)

abbrev pub evaluate : Option Bool → Limited Bool
evaluate none = raise LimiterUnavailable.limiter_unavailable
evaluate (some b) = pure b

-- Whether a lease is held, from what LEASE_ACQUIRE gave, and gave again without the limits.
unfoldable pub acquire_lease : Mode → Option Bool → Option Bool → Limited Bool
unfolding count
acquire_lease mode reply unlimited = do
  result ← evaluate reply
  if result then pure true else do
    modify (count Family.connect Outcome.capacity_rejected)
    if not (mode == Mode.shadow) then pure false else do _ ← evaluate unlimited; pure true
