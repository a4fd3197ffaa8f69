-- ===== src/Notifications/Places.antt =====
-- The ten places on the shared mail account, which app/notifications/api.py shared_capacity gives out.
use job_ping.Base.{
  ℕ, ◌≤◌, ◌≡◌, refl, sym, ◌∙◌, inl, inr, Bool, true, false, Option, none, some, List, [], ◌∷◌, ◌++◌,
  arith, find, any, All-append, Apart, snoc-Apart, ◌==◌, nat_eq, if◌then◌else◌, Bool-cases, Text,
  list_eq, Result, ok, err,
}
use mathlib.Core.Path.{subst}
use job_ping.Notifications.Models.{Subscriber, Provider, Mailbox}
use job_ping.Notifications.Claims.{change_user, set_user}
use job_ping.Notifications.Webhook.{RequestError, cancel_pending}
use job_ping.Notifications.Admitted.{
  Caller, Fresh, new_subscriber, moved, with_verified, verify, is_taken, admit_found,
}
use job_ping.Notifications.Preferences.{has_place}
use job_ping.Notifications.Rows.{
  same_user, placed, KeepsId, change-Apart, placed-change, HaveProvider, found-rows, none-rows,
  absent-rows, found-id, All-of,
}

-- One row for a subscriber, and at most ten places taken.
pub record HasPlaces (m : Mailbox) : Type 0 where
  pub one_row : Apart same_user m.subscribers
  pub places : placed m.subscribers ≤ 10

-- A change that gives no place.
abbrev pub GivesNone : (Subscriber → Subscriber) → Type 0
GivesNone f = (u : Subscriber) → has_place (f u) ≡ true → has_place u ≡ true

pub set-HasPlaces :
    (id : ℕ) (f : Subscriber → Subscriber) (m : Mailbox)
    → KeepsId f
    → GivesNone f
    → HasPlaces m
    → HasPlaces (set_user id f m)
unfolding set_user
set-HasPlaces id f m k g h = record {
  one_row = change-Apart id f k m.subscribers h.one_row;
  places = omega (
    arith,
    placed-change id f k m.subscribers (
        All-of (λ (u : Subscriber). u.id ≡ id → has_place (f u) ≡ true → has_place u ≡ true)
          m.subscribers (λ u e. g u)),
    h.places,
  );
}

pub cancel-HasPlaces : (id : ℕ) (m : Mailbox) → HasPlaces m → HasPlaces (cancel_pending id m)
unfolding cancel_pending
cancel-HasPlaces id m h = record { one_row = h.one_row; places = h.places }

-- What `subscriber` leaves: the caller's row has the provider that is read.
abbrev pub IsAdmitted : ℕ → Result RequestError Subscriber × Mailbox → Type 0
IsAdmitted id (ok u, n) = HasPlaces n × (u.id ≡ id) × HaveProvider id u.provider n.subscribers
IsAdmitted id (err e, n) = HasPlaces n

changed-rows :
    (id : ℕ) (p : Provider) (f : Subscriber → Subscriber) (us : List Subscriber)
    → ((u : Subscriber) → (f u).provider ≡ u.provider)
    → KeepsId f
    → HaveProvider id p us
    → HaveProvider id p (change_user id f us)
unfolding change_user
changed-rows id p f [] q k h = tt
changed-rows id p f (u ∷ us) q k h = elim (Bool-cases (u.id == id)) [
  | inl t ↦ rw t (λ e. q u ∙ h.0 (sym (k u) ∙ e), changed-rows id p f us q k h.1)
  | inr t ↦ rw t (h.0, changed-rows id p f us q k h.1)
]

or_cancelled-subscribers :
    (b : Bool) (id : ℕ) (m : Mailbox)
    → (if b then m else cancel_pending id m).subscribers ≡ m.subscribers
unfolding cancel_pending
or_cancelled-subscribers true id m = refl
or_cancelled-subscribers false id m = refl

or_cancelled-HasPlaces :
    (b : Bool) (id : ℕ) (m : Mailbox)
    → HasPlaces m
    → HasPlaces (if b then m else cancel_pending id m)
or_cancelled-HasPlaces true id m h = h
or_cancelled-HasPlaces false id m h = cancel-HasPlaces id m h

verify-IsAdmitted :
    (who : Caller) (u : Subscriber) (m : Mailbox)
    → HasPlaces m
    → u.id ≡ who.uid
    → HaveProvider who.uid u.provider m.subscribers
    → IsAdmitted who.uid (verify who u m)
unfolding verify with_verified has_place set_user
verify-IsAdmitted who u m h i p =
    let n = set_user who.uid (with_verified who) m in
    let hn : HasPlaces n = set-HasPlaces who.uid (with_verified who) m (λ u. refl) (λ u k. k) h in
    let pn =
      changed-rows who.uid u.provider (with_verified who) m.subscribers (λ u. refl) (λ u. refl) p in
    (
      or_cancelled-HasPlaces who.verified who.uid n hn,
      i,
      subst (HaveProvider who.uid u.provider)
          (sym (or_cancelled-subscribers who.verified who.uid n)) pn,
    )

appended-placed :
    (us : List Subscriber) (u : Subscriber)
    → has_place u ≡ false
    → placed (us ++ (u ∷ [])) ≡ placed us
appended-placed [] u h = ground arith
appended-placed (v ∷ us) u h = ground (arith, appended-placed us u h)

new-IsAdmitted :
    (who : Caller) (new : Subscriber) (m : Mailbox)
    → HasPlaces m
    → new.id ≡ who.uid
    → has_place new ≡ false
    → find (λ v. v.id == who.uid) m.subscribers ≡ none
    → IsAdmitted who.uid (verify who new (record m { subscribers = m.subscribers ++ (new ∷ []) }))
new-IsAdmitted who new m h i g f =
    let absent = none-rows who.uid m.subscribers f in
    let rows : HasPlaces (record m { subscribers = m.subscribers ++ (new ∷ []) }) = record {
      one_row =
          snoc-Apart same_user m.subscribers new h.one_row
            (subst (λ (i : ℕ). any (λ v. v.id == i) m.subscribers ≡ false) (sym i) absent);
      places = omega (arith, appended-placed m.subscribers new g, h.places);
    } in
    verify-IsAdmitted who new (record m { subscribers = m.subscribers ++ (new ∷ []) }) rows i
      (All-append (λ (u : Subscriber). u.id ≡ who.uid → u.provider ≡ new.provider) m.subscribers
        (new ∷ []) (absent-rows who.uid new.provider m.subscribers absent) ((λ e. refl), tt))

pub admit-IsAdmitted :
    (f : Fresh) (who : Caller) (timezone : Text) (o : Option Subscriber) (m : Mailbox)
    → HasPlaces m
    → find (λ v. v.id == who.uid) m.subscribers ≡ o
    → IsAdmitted who.uid (admit_found f who timezone o m)
unfolding admit_found new_subscriber moved has_place
admit-IsAdmitted f who timezone none m h e = elim (Bool-cases (is_taken who.email m)) [
  | inl t ↦ rw t h
  | inr t ↦ rw t (new-IsAdmitted who (new_subscriber f who timezone) m h refl refl e)
]
admit-IsAdmitted f who timezone (some u) m h e =
    let i : u.id ≡ who.uid = ground (arith, found-id who.uid m.subscribers u e) in
    let p = found-rows who.uid m.subscribers u h.one_row e in
    elim (Bool-cases (u.email == who.email)) [
      | inl t ↦ rw t (verify-IsAdmitted who u m h i p)
      | inr t ↦ elim (Bool-cases (is_taken who.email m)) [
        | inl k ↦ rw (t, k) h
        | inr k ↦
            rw (t, k)
              (verify-IsAdmitted who (moved f who u)
                (set_user who.uid (moved f who) (cancel_pending who.uid m))
                (set-HasPlaces who.uid (moved f who) (cancel_pending who.uid m) (λ u. refl)
                  (λ u k. absurd (ground arith)) (cancel-HasPlaces who.uid m h))
                i
                (changed-rows who.uid u.provider (moved f who) m.subscribers (λ u. refl) (λ u. refl)
                  p))
      ]
    ]
