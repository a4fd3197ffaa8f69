-- ===== src/RequestLimits/Renewal.antt =====
-- app/request_limits/leases.py StreamLeases.renew_until_lost: the loop that renews a lease three times
-- in its life and gives the connection up. Times count thirds of the clock's unit, so that a third of
-- the lease is the whole number `period`.
use job_ping.Base.{
  ℕ, ◌+◌, ◌*◌, ◌≤◌, ◌<◌, ◌≡◌, ◌⊎◌, inl, inr, Bool, true, false, List, [], ◌∷◌, arith, leb,
  if◌then◌else◌,
}
use native.Mathlib.Nat.{mul-le-mul_right}

pub data Reply : Type 0 where
  renewed : Reply
  lost : Reply
  unavailable : Reply

-- One evaluation of LEASE_RENEW: what it gave, when the script ran in it, and how long it took.
pub record Evaluation : Type 0 where
  pub reply : Reply
  pub ran : ℕ
  pub took : ℕ

-- The loop between two evaluations: the time, the failures in a row, when the lease was last granted,
-- and whether the loop has returned.
pub record Loop : Type 0 where
  pub now : ℕ
  pub failures : ℕ
  pub granted_at : ℕ
  pub returned : Bool

unfoldable pub renewal : ℕ → Evaluation → Loop → Loop
renewal period a l =
    let asked = l.now + period in
    elim a.reply [
      | Reply.renewed ↦ record {
        now = asked + a.took;
        failures = 0;
        granted_at = asked + a.ran;
        returned = false;
      }
      | Reply.lost ↦ record l { now = asked + a.took; failures = 0; returned = true }
      | Reply.unavailable ↦ record l {
        now = asked + a.took;
        failures = l.failures + 1;
        returned = leb 2 (l.failures + 1);
      }
    ]

unfoldable pub renew_until_lost : ℕ → List Evaluation → Loop → Loop
unfolding renewal
renew_until_lost period [] l = l
renew_until_lost period (a ∷ more) l =
    let next = renewal period a l in
    let rest = renew_until_lost period more next in if next.returned then next else rest

-- A lease that an evaluation granted `since` units ago.
abbrev pub begun : ℕ → ℕ → Loop
begun granted since = record {
  now = granted + since;
  failures = 0;
  granted_at = granted;
  returned = false;
}

-- Every evaluation ends in time, and its script runs before it ends.
unfoldable pub InTime : ℕ → List Evaluation → Type 0
InTime timeout [] = Unit
InTime timeout (a ∷ more) = (a.ran ≤ a.took) × (a.took ≤ timeout) × InTime timeout more

-- While the loop goes on.
unfoldable pub Near : ℕ → ℕ → Loop → Type 0
Near period timeout l =
    (l.failures ≤ 1) × (l.now ≤ l.granted_at + timeout + l.failures * (period + timeout))

Near-lt :
    (period timeout : ℕ) (l : Loop)
    → 3 * timeout < period
    → Near period timeout l
    → l.now < l.granted_at + 3 * period
unfolding Near
Near-lt period timeout l slack (few, near) =
    omega (arith, mul-le-mul_right {m = l.failures} {n = 1} (period + timeout) few)

renewal-Near :
    (period timeout : ℕ) (a : Evaluation) (l : Loop)
    → 3 * timeout < period
    → a.ran ≤ a.took
    → a.took ≤ timeout
    → Near period timeout l
    → (((renewal period a l).returned ≡ true)
        × ((renewal period a l).now < (renewal period a l).granted_at + 3 * period))
      ⊎ (((renewal period a l).returned ≡ false) × Near period timeout (renewal period a l))
unfolding renewal Near
renewal-Near period timeout a l slack ran took near = ground arith

renew-Near :
    (period timeout : ℕ) (more : List Evaluation) (l : Loop)
    → 3 * timeout < period
    → InTime timeout more
    → Near period timeout l
    → (renew_until_lost period more l).now
      < (renew_until_lost period more l).granted_at + 3 * period
unfolding InTime renew_until_lost
renew-Near period timeout [] l slack in_time near = Near-lt period timeout l slack near
renew-Near period timeout (a ∷ more) l slack (ran, took, later) near =
    elim (renewal-Near period timeout a l slack ran took near) [
      | inl (stop, before) ↦ rw stop before
      | inr (on, still) ↦
          rw on (renew-Near period timeout more (renewal period a l) slack later still)
    ]

-- Where nine timeouts are shorter than the lease, every evaluation ends within the timeout with its
-- script inside it, and the first grant is at most a timeout ago, the loop is never, after any number of
-- evaluations, whatever they give, at a time when the lease last granted is over.
pub renewal_before_expiry :
    (period timeout granted since : ℕ) (more : List Evaluation)
    → 3 * timeout < period
    → InTime timeout more
    → since ≤ timeout
    → let l = renew_until_lost period more (begun granted since) in
      l.now < l.granted_at + 3 * period
unfolding Near
renewal_before_expiry period timeout granted since more slack in_time soon =
    renew-Near period timeout more (begun granted since) slack in_time (omega arith, omega arith)
