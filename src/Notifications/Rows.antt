-- ===== src/Notifications/Rows.antt =====
-- How the handlers of app/notifications/api.py change the rows of the subscribers: one row, which keeps its id.
use job_ping.Base.{
  ℕ, suc, ◌≤◌, ◌≡◌, refl, ap, ◌∙◌, inl, inr, Bool, true, false, none, some, List, [], ◌∷◌, arith,
  length, keep, find, find-All, any, All, Apart, ◌==◌, nat_eq, nat_beq_iff, Bool-cases,
}
use mathlib.Core.Path.{subst}
use job_ping.Notifications.Models.{Subscriber, Provider}
use job_ping.Notifications.Claims.{change_user}
use job_ping.Notifications.Preferences.{has_place, others_placed}

abbrev pub same_user : Subscriber → Subscriber → Bool
same_user a b = a.id == b.id

abbrev pub placed : List Subscriber → ℕ
placed us = length (keep has_place us)

-- A change of a row that keeps its id.
abbrev pub KeepsId : (Subscriber → Subscriber) → Type 0
KeepsId f = (u : Subscriber) → (f u).id ≡ u.id

pub All-of : (P : Subscriber → Type 0) (us : List Subscriber) → ((u : Subscriber) → P u) → All P us
All-of P [] h = tt
All-of P (u ∷ us) h = (h u, All-of P us h)

module _ (id : ℕ) (f : Subscriber → Subscriber) (k : KeepsId f) where
  any-change :
      (i : ℕ) (us : List Subscriber)
      → any (λ v. i == v.id) (change_user id f us) ≡ any (λ v. i == v.id) us
  unfolding change_user
  any-change i [] = refl
  any-change i (u ∷ us) = ground (arith, any-change i us, k u)

  pub change-Apart :
      (us : List Subscriber) → Apart same_user us → Apart same_user (change_user id f us)
  unfolding change_user
  change-Apart [] h = tt
  change-Apart (u ∷ us) h = elim (Bool-cases (u.id == id)) [
    | inl t ↦ rw t (
      any-change (f u).id us ∙ ap (λ (i : ℕ). any (λ v. i == v.id) us) (k u) ∙ h.0,
      change-Apart us h.1,
    )
    | inr t ↦ rw t (any-change u.id us ∙ h.0, change-Apart us h.1)
  ]

  -- A change that gives no place takes none more.
  pub placed-change :
      (us : List Subscriber)
      → All (λ (u : Subscriber). u.id ≡ id → has_place (f u) ≡ true → has_place u ≡ true) us
      → placed (change_user id f us) ≤ placed us
  unfolding change_user
  placed-change [] h = omega arith
  placed-change (u ∷ us) h = ground (arith, placed-change us h.1, h.0, nat_beq_iff u.id id)

  absent-change :
      (us : List Subscriber)
      → any (λ v. id == v.id) us ≡ false
      → placed (change_user id f us) ≡ others_placed id us
  unfolding change_user others_placed
  absent-change [] h = refl
  absent-change (u ∷ us) h =
      ground (arith, absent-change us, nat_beq_iff u.id id, nat_beq_iff id u.id)

  -- A change of one row takes one place more than the other rows have, at most.
  pub placed-others :
      (us : List Subscriber)
      → Apart same_user us
      → placed (change_user id f us) ≤ suc (others_placed id us)
  unfolding change_user others_placed
  placed-others [] h = omega arith
  placed-others (u ∷ us) h = elim (Bool-cases (u.id == id)) [
    | inl t ↦
        let absent : any (λ v. id == v.id) us ≡ false =
          subst (λ (i : ℕ). any (λ v. i == v.id) us ≡ false) (ground (arith, nat_beq_iff u.id id))
            h.0 in
        ground (arith, absent-change us absent)
    | inr t ↦ ground (arith, placed-others us h.1)
  ]

-- The rows of an id have this provider.
abbrev pub HaveProvider : ℕ → Provider → List Subscriber → Type 0
HaveProvider id p us = All (λ (u : Subscriber). u.id ≡ id → u.provider ≡ p) us

pub absent-rows :
    (id : ℕ) (p : Provider) (us : List Subscriber)
    → any (λ v. v.id == id) us ≡ false
    → HaveProvider id p us
absent-rows id p [] h = tt
absent-rows id p (u ∷ us) h =
    (λ e. absurd (ground (arith, nat_beq_iff u.id id)), absent-rows id p us (ground arith))

absent-sym :
    (i : ℕ) (us : List Subscriber)
    → any (λ v. i == v.id) us ≡ false
    → any (λ v. v.id == i) us ≡ false
absent-sym i [] h = refl
absent-sym i (u ∷ us) h = ground (arith, absent-sym i us, nat_beq_iff i u.id, nat_beq_iff u.id i)

pub found-rows :
    (id : ℕ) (us : List Subscriber) (u : Subscriber)
    → Apart same_user us
    → find (λ v. v.id == id) us ≡ some u
    → HaveProvider id u.provider us
found-rows id [] u a h = tt
found-rows id (v ∷ us) u a h = elim (Bool-cases (v.id == id)) [
  | inl t ↦
      let same : v ≡ u = ground arith in
      (
        λ e. ap (λ (x : Subscriber). x.provider) same,
        absent-rows id u.provider us (
            absent-sym id us (
              subst (λ (i : ℕ). any (λ x. i == x.id) us ≡ false)
                (ground (arith, nat_beq_iff v.id id)) a.0)),
      )
  | inr t ↦ (λ e. absurd (ground (arith, nat_beq_iff v.id id)), found-rows id us u a.1 (rw t at h))
]

pub none-rows :
    (id : ℕ) (us : List Subscriber)
    → find (λ v. v.id == id) us ≡ none
    → any (λ v. v.id == id) us ≡ false
none-rows id [] h = refl
none-rows id (u ∷ us) h = ground (arith, none-rows id us)

pub found-id :
    (id : ℕ) (us : List Subscriber) (u : Subscriber)
    → find (λ v. v.id == id) us ≡ some u
    → u.id ≡ id
found-id id us u h =
    let k =
      find-All (λ (v : Subscriber). Unit {0}) (λ v. v.id == id) us u
        (All-of (λ u. Unit {0}) us (λ u. tt)) h in
    ground (arith, nat_beq_iff u.id id)
