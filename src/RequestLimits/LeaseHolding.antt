-- ===== src/RequestLimits/LeaseHolding.antt =====
-- How long a lease lasts: the lease scripts of app/request_limits/scripts.py, one after another.
use mathlib.Core.Bool.{true≢false}
use job_ping.RequestLimits.LeaseScripts.{
  Key, Store, put, key_beq, members_at, granted, at_capacity, purge, lease_acquire, lease_renew,
  Member,
}
use job_ping.RequestLimits.LeaseCounts.{granted-kept}
use job_ping.Base.{ℕ, ◌+◌, ◌<◌, String, ◌≡◌, refl, true, List, string_eq, sym, inl, inr, Bool-cases}

-- A renewal of a lease that was granted at both keys, before it is over.
renew_granted :
    (now ttl gap again : ℕ) (t digest : String) (mine others : List Member) (s : Store)
    → gap < ttl
    → (lease_renew (now + gap) again t (Key.streams digest) Key.streams_global (
        put Key.streams_global
          (granted now ttl t others)
          (put (Key.streams digest) (granted now ttl t mine) s))).0
      ≡ true
unfolding lease_renew put key_beq
renew_granted now ttl gap again t digest mine others s h =
    rw ((string_eq.equals_iff digest digest).1 refl)
      (rw (granted-kept now ttl gap t mine h) (rw (granted-kept now ttl gap t others h) refl))

-- After an acquisition that succeeds a renewal of the lease succeeds at any time before its expiry,
-- if no script came between.
pub acquired_lasts :
    (now ttl ip_limit global_limit gap again : ℕ) (t digest : String) (s : Store)
    → gap < ttl
    → let (granted_now, left) =
        lease_acquire now ttl ip_limit global_limit t (Key.streams digest) Key.streams_global s in
      granted_now ≡ true
      → (lease_renew (now + gap) again t (Key.streams digest) Key.streams_global left).0 ≡ true
unfolding lease_acquire
acquired_lasts now ttl ip_limit global_limit gap again t digest s h =
    let mine = purge now (members_at now (s (Key.streams digest))) in
    let others = purge now (members_at now (s Key.streams_global)) in
    elim (Bool-cases (at_capacity ip_limit mine)) [
      | inl full ↦ rw full (λ e. absurd (true≢false (sym e)))
      | inr room ↦ elim (Bool-cases (at_capacity global_limit others)) [
        | inl full ↦ rw (room, full) (λ e. absurd (true≢false (sym e)))
        | inr more ↦ rw (room, more) (λ _. renew_granted now ttl gap again t digest mine others s h)
      ]
    ]
