-- ===== src/RequestLimits/LeaseBounds.antt =====
-- What the lease scripts of app/request_limits/scripts.py promise together.
use job_ping.RequestLimits.LeaseScripts.{
  Key, SortedSet, Store, no_members, put, key_beq, members_at, purge, zscore, at_capacity,
  lease_acquire, is_lost, lease_renew, lease_release,
}
use job_ping.RequestLimits.LeaseCounts.{
  held, held-purged-le, granted-held, held-drop-le, held-later-le, granted-room,
}
use job_ping.Base.{ℕ, ◌+◌, ◌≤◌, ◌<◌, String, inl, inr, arith, Bool-cases, ◌==◌, nat_eq, string_eq}

-- What any number of workers do to the store, with both limits, a script at a time and with any
-- time between.
pub data Runs (ip_limit global_limit : ℕ) : ℕ → Store → Type 0 where
  start : {now : ℕ} → Runs ip_limit global_limit now (λ _. no_members)
  wait :
      {now : ℕ} {s : Store}
      → Runs ip_limit global_limit now s
      → (gap : ℕ) → Runs ip_limit global_limit (now + gap) s
  acquired :
      {now : ℕ} {s : Store}
      → Runs ip_limit global_limit now s
      → (ttl : ℕ) (t digest : String)
      → Runs ip_limit global_limit now
          (lease_acquire now ttl ip_limit global_limit t
            (Key.streams digest)
            Key.streams_global
            s).1
  renewed :
      {now : ℕ} {s : Store}
      → Runs ip_limit global_limit now s
      → (ttl : ℕ) (t digest : String)
      → Runs ip_limit global_limit now
          (lease_renew now ttl t (Key.streams digest) Key.streams_global s).1
  released :
      {now : ℕ} {s : Store}
      → Runs ip_limit global_limit now s
      → (t digest : String)
      → Runs ip_limit global_limit now
          (lease_release now t (Key.streams digest) Key.streams_global s)

-- No key holds more leases than its limit.
pub record WithinLimits (ip_limit global_limit now : ℕ) (s : Store) : Type 0 where
  pub per_address : (digest : String) → held now (s (Key.streams digest)) ≤ ip_limit
  pub in_total : held now (s Key.streams_global) ≤ global_limit

-- A set that a script leaves in place of another, as far as a limit is concerned.
put-WithinLimits :
    (ip_limit global_limit now : ℕ) (s : Store) (digest : String) (mine others : SortedSet)
    → WithinLimits ip_limit global_limit now s
    → held now mine ≤ ip_limit
    → held now others ≤ global_limit
    → WithinLimits ip_limit global_limit now
        (put Key.streams_global others (put (Key.streams digest) mine s))
unfolding put key_beq
put-WithinLimits ip_limit global_limit now s digest mine others w hm ho = record {
  per_address = λ d. elim (Bool-cases (digest == d)) [
    | inl same ↦ rw same hm
    | inr other ↦ rw other (w.per_address d)
  ];
  in_total = ho;
}

module _ (ip_limit global_limit : ℕ) (some_ip : 0 < ip_limit) (some_all : 0 < global_limit) where
  acquire-WithinLimits :
      (now ttl : ℕ) (t digest : String) (s : Store)
      → WithinLimits ip_limit global_limit now s
      → WithinLimits ip_limit global_limit now
          (lease_acquire now ttl ip_limit global_limit t
            (Key.streams digest)
            Key.streams_global
            s).1
  unfolding lease_acquire
  acquire-WithinLimits now ttl t digest s w =
      let mine = purge now (members_at now (s (Key.streams digest))) in
      let others = purge now (members_at now (s Key.streams_global)) in
      elim (Bool-cases (at_capacity ip_limit mine)) [
        | inl full ↦ rw full (purged now digest s w)
        | inr room ↦ elim (Bool-cases (at_capacity global_limit others)) [
          | inl full ↦ rw (room, full) (purged now digest s w)
          | inr more ↦
              rw (room, more)
                (put-WithinLimits ip_limit global_limit now s digest _ _ w
                  (granted-room ip_limit now ttl t _ some_ip room)
                  (granted-room global_limit now ttl t _ some_all more))
        ]
      ]
    where
      purged :
          (now : ℕ) (digest : String) (s : Store)
          → WithinLimits ip_limit global_limit now s
          → WithinLimits ip_limit global_limit now (
              put Key.streams_global
                (record (s Key.streams_global) {
                  members = purge now (members_at now (s Key.streams_global));
                })
                (put
                  (Key.streams digest)
                  (record (s (Key.streams digest)) {
                    members = purge now (members_at now (s (Key.streams digest)));
                  })
                  s))
      purged now digest s w =
          put-WithinLimits ip_limit global_limit now s digest _ _ w
            (omega (arith, held-purged-le now (s (Key.streams digest)), w.per_address digest))
            (omega (arith, held-purged-le now (s Key.streams_global), w.in_total))

  renew-WithinLimits :
      (now ttl : ℕ) (t digest : String) (s : Store)
      → WithinLimits ip_limit global_limit now s
      → WithinLimits ip_limit global_limit now
          (lease_renew now ttl t (Key.streams digest) Key.streams_global s).1
  unfolding lease_renew
  renew-WithinLimits now ttl t digest s w =
      elim (Bool-cases (is_lost now (zscore t (members_at now (s (Key.streams digest)))))) [
        | inl lost ↦ rw lost w
        | inr here ↦
            elim (Bool-cases (is_lost now (zscore t (members_at now (s Key.streams_global))))) [
              | inl lost ↦ rw (here, lost) w
              | inr there ↦
                  rw (here, there)
                    (put-WithinLimits ip_limit global_limit now s digest _ _ w
                      (omega (
                        arith,
                        granted-held now ttl t (s (Key.streams digest)) here,
                        w.per_address digest,
                      ))
                      (omega
                        (arith, granted-held now ttl t (s Key.streams_global) there, w.in_total)))
            ]
      ]

  release-WithinLimits :
      (now : ℕ) (t digest : String) (s : Store)
      → WithinLimits ip_limit global_limit now s
      → WithinLimits ip_limit global_limit now
          (lease_release now t (Key.streams digest) Key.streams_global s)
  unfolding lease_release
  release-WithinLimits now t digest s w =
      put-WithinLimits ip_limit global_limit now s digest _ _ w
        (omega (arith, held-drop-le now t (s (Key.streams digest)), w.per_address digest))
        (omega (arith, held-drop-le now t (s Key.streams_global), w.in_total))

  -- With positive limits, however workers' acquisitions, renewals and releases interleave, no address
  -- holds more unexpired leases than the limit of an address, nor all together more than the total.
  pub Runs-WithinLimits :
      {now : ℕ} {s : Store}
      → Runs ip_limit global_limit now s
      → WithinLimits ip_limit global_limit now s
  unfolding held members_at purge
  Runs-WithinLimits (Runs.start {now}) = record {
    per_address = λ d. ground arith;
    in_total = ground arith;
  }
  Runs-WithinLimits (Runs.wait {now} {s} r gap) =
      let w = Runs-WithinLimits r in
      record {
        per_address =
            λ d. omega (arith, held-later-le now gap (s (Key.streams d)), w.per_address d);
        in_total = omega (arith, held-later-le now gap (s Key.streams_global), w.in_total);
      }
  Runs-WithinLimits (Runs.acquired {now} {s} r ttl t d) =
      acquire-WithinLimits now ttl t d s (Runs-WithinLimits r)
  Runs-WithinLimits (Runs.renewed {now} {s} r ttl t d) =
      renew-WithinLimits now ttl t d s (Runs-WithinLimits r)
  Runs-WithinLimits (Runs.released {now} {s} r t d) =
      release-WithinLimits now t d s (Runs-WithinLimits r)
