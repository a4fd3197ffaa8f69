-- ===== src/Notifications/Members.antt =====
-- Members of the lists that make_recaps builds: without repetitions, sorted, filtered.
use mathlib.Core.Path.{subst}
use job_ping.Base.{
  ℕ, ◌≡◌, refl, Bool, true, false, not, ◌||◌, List, [], ◌∷◌, ◌++◌, map, arith, keep, All,
  nat_beq_iff, ◌==◌, elem, nat_eq, place_by, order_by, any, some, if◌then◌else◌, All-imp,
}
use job_ping.Notifications.Models.{EmailDelivery, JobMatch}
use job_ping.Notifications.Recaps.{first_of, from_keys, matched_first, in_window}

elem-keep :
    (x y : ℕ) (zs : List ℕ) → (x == y) ≡ false → elem x (keep (λ z. not (z == y)) zs) ≡ elem x zs
unfolding elem
elem-keep x y [] h = refl
elem-keep x y (z ∷ zs) h =
    ground (arith, elem-keep x y zs h, nat_beq_iff z x, nat_beq_iff z y, nat_beq_iff x y)

-- A list without its repetitions has the same members.
pub elem-from_keys : (x : ℕ) (zs : List ℕ) → elem x (from_keys zs) ≡ elem x zs
unfolding from_keys elem
elem-from_keys x [] = refl
elem-from_keys x (z ∷ zs) =
    ground
      (arith, elem-keep x z (from_keys zs), elem-from_keys x zs, nat_beq_iff z x, nat_beq_iff x z)

pub elem-append : (x : ℕ) (ys zs : List ℕ) → elem x (ys ++ zs) ≡ (elem x ys || elem x zs)
unfolding elem
elem-append x [] zs = refl
elem-append x (y ∷ ys) zs = ground (arith, elem-append x ys zs)

-- What a sorted list has, by a field.
elem-place :
    (i : ℕ) (k : JobMatch) (ks : List JobMatch)
    → elem i (map (λ l. l.occurrence_id) (place_by matched_first k ks))
      ≡ elem i (map (λ l. l.occurrence_id) (k ∷ ks))
unfolding place_by elem
elem-place i k [] = refl
elem-place i k (l ∷ ks) = ground (arith, elem-place i k ks)

pub elem-order :
    (i : ℕ) (ks : List JobMatch)
    → elem i (map (λ l. l.occurrence_id) (order_by matched_first ks))
      ≡ elem i (map (λ l. l.occurrence_id) ks)
unfolding order_by elem
elem-order i [] = refl
elem-order i (k ∷ ks) = ground (arith, elem-place i k (order_by matched_first ks), elem-order i ks)

kept_has :
    (user start end_at : ℕ) (k : JobMatch) (ks : List JobMatch)
    → in_window user start end_at k ≡ true
    → elem k.occurrence_id
        (map (λ l. l.occurrence_id) (if in_window user start end_at k then k ∷ ks else ks))
      ≡ true
unfolding elem
kept_has user start end_at k ks h =
    rw h (ground (arith, nat_beq_iff k.occurrence_id k.occurrence_id))

more_has :
    (user start end_at i : ℕ) (k : JobMatch) (ks : List JobMatch)
    → elem i (map (λ l. l.occurrence_id) ks) ≡ true
    → elem i (map (λ l. l.occurrence_id) (if in_window user start end_at k then k ∷ ks else ks))
      ≡ true
unfolding elem
more_has user start end_at i k ks h = ground arith

-- A match of the window is among the matches that the query returns.
pub window-has :
    (user start end_at : ℕ) (ks : List JobMatch)
    → All
        (λ (k : JobMatch).
          in_window user start end_at k ≡ true
          → elem k.occurrence_id
              (map (λ l. l.occurrence_id) (keep (in_window user start end_at) ks))
            ≡ true)
        ks
window-has user start end_at [] = tt
window-has user start end_at (k ∷ ks) =
    let rest = keep (in_window user start end_at) ks in
    (
      kept_has user start end_at k rest,
      All-imp
          (λ (l : JobMatch).
            in_window user start end_at l ≡ true
            → elem l.occurrence_id (map (λ j. j.occurrence_id) rest) ≡ true)
          (λ (l : JobMatch).
            in_window user start end_at l ≡ true
            → elem l.occurrence_id
                (map (λ j. j.occurrence_id) (keep (in_window user start end_at) (k ∷ ks)))
              ≡ true)
          ks (λ l h w. more_has user start end_at l.occurrence_id k rest (h w))
          (window-has user start end_at ks),
    )

pub self-has :
    (ds : List EmailDelivery)
    → All (λ (d : EmailDelivery). any (λ (e : EmailDelivery). e.id == d.id) ds ≡ true) ds
self-has [] = tt
self-has (d ∷ ds) = (
  ground (arith, nat_beq_iff d.id d.id),
  All-imp (λ (x : EmailDelivery). any (λ (e : EmailDelivery). e.id == x.id) ds ≡ true)
      (λ (x : EmailDelivery). any (λ (e : EmailDelivery). e.id == x.id) (d ∷ ds) ≡ true) ds
      (λ x h. ground arith) (self-has ds),
)

pub All-first :
    {A : Type 0} (P : A → Type 0) (xs : List A) (x : A) → All P xs → first_of xs ≡ some x → P x
unfolding first_of
All-first P [] x h e = absurd (ground arith)
All-first P (y ∷ ys) x h e = let same : y ≡ x = ground arith in subst P same h.0

pub keep-has : {A : Type 0} (p : A → Bool) (xs : List A) → All (λ (x : A). p x ≡ true) (keep p xs)
keep-has p [] = tt
keep-has p (x ∷ xs) = ground (arith, keep-has p xs)
