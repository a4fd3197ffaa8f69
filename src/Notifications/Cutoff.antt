-- ===== src/Notifications/Cutoff.antt =====
-- app/notifications/core.py next_cutoff, and the catch-up loop of app/notifications/worker.py make_recaps.
use job_ping.Base.{
  ℕ, zero, suc, ◌+◌, ◌*◌, ◌≤◌, ◌<◌, ◌≡◌, refl, inl, inr, arith, leb, if◌then◌else◌, leb→le,
  Bool-cases, false,
}

-- What next_cutoff takes of a zoneinfo zone: the day and the second of the day that its clock shows at an
-- instant, and the instant at which it shows a day and a second.
pub record Zone : Type 0 where
  pub day : ℕ → ℕ
  pub second : ℕ → ℕ
  pub instant : ℕ → ℕ → ℕ

-- 20:00
abbrev pub evening : ℕ
evening = 20 * 3600

unfoldable pub next_cutoff : Zone → ℕ → ℕ
next_cutoff zone after =
    if leb evening (zone.second after)
    then zone.instant (zone.day after + 1) evening
    else zone.instant (zone.day after) evening

-- A zone's 20:00 that its clock has not shown yet on a day is later.
pub record Evenings (zone : Zone) : Type 0 where
  pub same_day : (t : ℕ) → zone.second t < evening → t < zone.instant (zone.day t) evening
  pub next_day : (t : ℕ) → t < zone.instant (zone.day t + 1) evening

-- `while next_cutoff(end) <= now: end = next_cutoff(end)`, in at most so many rounds.
unfoldable pub catch_up : Zone → ℕ → ℕ → ℕ → ℕ
unfolding next_cutoff
catch_up zone now zero end_at = end_at
catch_up zone now (suc n) end_at =
    let rest = catch_up zone now n (next_cutoff zone end_at) in
    if leb (next_cutoff zone end_at) now then rest else end_at

-- The loop moves `end` on by a second at least, so it is over after `now` rounds.
unfoldable pub last_cutoff : Zone → ℕ → ℕ → ℕ
unfolding catch_up
last_cutoff zone now end_at = catch_up zone now (now + 1) end_at

module _ {zone : Zone} (w : Evenings zone) where
  pub next_cutoff-later : (t : ℕ) → t < next_cutoff zone t
  unfolding next_cutoff
  next_cutoff-later t = ground (arith, w.same_day t, w.next_day t)

  catch_up-le :
      (now n t : ℕ) → t ≤ now → (t ≤ catch_up zone now n t) × (catch_up zone now n t ≤ now)
  unfolding catch_up
  catch_up-le now zero t h = (omega arith, h)
  catch_up-le now (suc n) t h = elim (Bool-cases (leb (next_cutoff zone t) now)) [
    | inl e ↦
        let k = catch_up-le now n (next_cutoff zone t) (leb→le (next_cutoff zone t) now e) in
        let l = next_cutoff-later t in rw e (omega (arith, k.0, l), k.1)
    | inr e ↦ rw e (omega arith, h)
  ]

  not_done : (now t : ℕ) → leb (next_cutoff zone t) now ≡ false → now < next_cutoff zone t
  not_done now t h = ground arith

  catch_up-done : (now n t : ℕ) → now < t + n → now < next_cutoff zone (catch_up zone now n t)
  unfolding catch_up
  catch_up-done now zero t h = omega (arith, next_cutoff-later t, h)
  catch_up-done now (suc n) t h = elim (Bool-cases (leb (next_cutoff zone t) now)) [
    | inl e ↦
        rw e (catch_up-done now n (next_cutoff zone t) (omega (arith, next_cutoff-later t, h)))
    | inr e ↦ rw e (not_done now t e)
  ]

  -- Past the cutoffs, no number of rounds moves the end.
  stays : (now n t : ℕ) → now < t → catch_up zone now n t ≡ t
  unfolding catch_up
  stays now zero t h = refl
  stays now (suc n) t h = ground (arith, next_cutoff-later t)

  enough : (now n k t : ℕ) → n ≤ k → now < t + n → catch_up zone now k t ≡ catch_up zone now n t
  unfolding catch_up
  enough now zero k t le h = stays now k t (omega arith)
  enough now (suc n) zero t le h = absurd (omega arith)
  enough now (suc n) (suc k) t le h = elim (Bool-cases (leb (next_cutoff zone t) now)) [
    | inl e ↦
        rw e (
          enough now n k (next_cutoff zone t) (omega arith) (omega (arith, next_cutoff-later t, h)))
    | inr e ↦ rw e refl
  ]

  -- From a recap that is due, the catch-up loop ends within its rounds at a cutoff between that time and
  -- now, and the next cutoff after it is later than now; no cutoff between is missed for want of rounds:
  -- any larger number of rounds gives the same.
  pub catch_up_ends :
      (now t : ℕ)
      → t ≤ now
      → (t ≤ last_cutoff zone now t)
        × (last_cutoff zone now t ≤ now)
        × (now < next_cutoff zone (last_cutoff zone now t))
        × ((more : ℕ) → now < more → catch_up zone now more t ≡ last_cutoff zone now t)
  unfolding last_cutoff
  catch_up_ends now t h =
      let k = catch_up-le now (now + 1) t h in
      (
        k.0,
        k.1,
        catch_up-done now (now + 1) t (omega arith),
        λ more le. enough now (now + 1) more t (omega (arith, le)) (omega arith),
      )
