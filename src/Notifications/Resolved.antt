-- ===== src/Notifications/Resolved.antt =====
-- The occurrences of matches and deliveries, which the steps of make_recaps find in the table.
use job_ping.Base.{
  ℕ, ◌≡◌, refl, inl, inr, true, not, Option, none, some, List, [], ◌∷◌, ◌++◌, map, arith, keep,
  find, All, All-append, All-keep, Bool-cases, ◌==◌, nat_eq, any, order_by, All-order,
}
use job_ping.Notifications.Models.{Occurrence, Mailbox, JobMatch, EmailDelivery}
use job_ping.Notifications.Recaps.{
  jobs_of, from_keys, replace, fold_alerts, open_recap, add_recap, folded_ids, fold_into, put_recap,
  new_recap, folded_recap, created_first, is_open_recap,
}
use job_ping.Notifications.Members.{All-first}

-- Every id is of an occurrence.
abbrev pub AreKnown : List Occurrence → List ℕ → Type 0
AreKnown os ids = All (λ (i : ℕ). any (λ (o : Occurrence). o.id == i) os ≡ true) ids

-- The occurrences of the matches, by their foreign key, and of the deliveries are in the table.
pub record Resolved (m : Mailbox) : Type 0 where
  pub of_matches :
      All
        (λ (k : JobMatch). any (λ (o : Occurrence). o.id == k.occurrence_id) m.occurrences ≡ true)
        m.matches
  pub of_deliveries :
      All (λ (d : EmailDelivery). AreKnown m.occurrences d.occurrence_ids) m.deliveries

found-known :
    (os : List Occurrence) (i : ℕ)
    → any (λ (o : Occurrence). o.id == i) os ≡ true
    → (o : Occurrence) × (find (λ o. o.id == i) os ≡ some o)
found-known [] i h = absurd (ground arith)
found-known (o ∷ os) i h = elim (Bool-cases (o.id == i)) [
  | inl e ↦ (o, ground arith)
  | inr e ↦ let (p, k) = found-known os i (ground arith) in (p, ground arith)
]

jobs_of-known :
    (os : List Occurrence) (ids : List ℕ)
    → AreKnown os ids
    → (js : List ℕ) × (jobs_of os ids ≡ some js)
unfolding jobs_of
jobs_of-known os [] h = ([], refl)
jobs_of-known os (i ∷ ids) h =
    let (o, e) = found-known os i h.0 in
    let (js, k) = jobs_of-known os ids h.1 in (o.job_id ∷ js, ground arith)

from_keys-All : (P : ℕ → Type 0) (xs : List ℕ) → All P xs → All P (from_keys xs)
unfolding from_keys
from_keys-All P [] h = tt
from_keys-All P (x ∷ xs) h =
    (h.0, All-keep P (λ y. not (y == x)) (from_keys xs) (from_keys-All P xs h.1))

map-All :
    (P : ℕ → Type 0) (ks : List JobMatch)
    → All (λ (k : JobMatch). P k.occurrence_id) ks
    → All P (map (λ k. k.occurrence_id) ks)
map-All P [] h = tt
map-All P (k ∷ ks) h = (h.0, map-All P ks h.1)

replace-All :
    (P : EmailDelivery → Type 0) (new : EmailDelivery) (ds : List EmailDelivery)
    → P new
    → All P ds
    → All P (replace new ds)
unfolding replace
replace-All P new [] hn h = tt
replace-All P new (d ∷ ds) hn h = (ground arith, replace-All P new ds hn h.1)

pub fold_alerts-known :
    (os : List Occurrence) (user : ℕ) (ids : List ℕ) (ds : List EmailDelivery)
    → All (λ (d : EmailDelivery). AreKnown os d.occurrence_ids) ds
    → All (λ (d : EmailDelivery). AreKnown os d.occurrence_ids) (fold_alerts user ids ds)
unfolding fold_alerts
fold_alerts-known os user ids [] h = tt
fold_alerts-known os user ids (d ∷ ds) h =
    (ground (arith, h.0), fold_alerts-known os user ids ds h.1)

open_recap-All :
    (P : EmailDelivery → Type 0) (user : ℕ) (ds : List EmailDelivery) (item : EmailDelivery)
    → All P ds
    → open_recap user ds ≡ some item
    → P item
unfolding open_recap
open_recap-All P user ds item h e =
    All-first P (order_by created_first (keep (is_open_recap user) ds)) item
      (All-order P created_first (keep (is_open_recap user) ds)
        (All-keep P (is_open_recap user) ds h))
      e

-- A step that returns, and leaves the occurrences resolved.
abbrev pub Returns : Option Mailbox → Type 0
Returns o = (n : Mailbox) × (o ≡ some n) × Resolved n

module _ (user start end_at now : ℕ) (ks : List JobMatch) (m : Mailbox) (w : Resolved m) where
  abbrev pub AreIn : Type 0
  AreIn =
      All (λ (k : JobMatch). any (λ (o : Occurrence). o.id == k.occurrence_id) m.occurrences ≡ true)
        ks

  add_recap-Resolved : AreIn → Resolved (add_recap user start end_at now ks m)
  unfolding add_recap new_recap
  add_recap-Resolved h = record {
    of_matches = w.of_matches;
    of_deliveries =
        All-append (λ (d : EmailDelivery). AreKnown m.occurrences d.occurrence_ids) m.deliveries
          (new_recap m.next_uuid user start end_at now ks ∷ []) w.of_deliveries
          (map-All (λ (i : ℕ). any (λ (o : Occurrence). o.id == i) m.occurrences ≡ true) ks h, tt);
  }

  folded-known :
      (item : EmailDelivery)
      → AreKnown m.occurrences item.occurrence_ids
      → AreIn
      → AreKnown m.occurrences (folded_ids item ks)
  unfolding folded_ids
  folded-known item k h =
      let P = λ (i : ℕ). any (λ (o : Occurrence). o.id == i) m.occurrences ≡ true in
      from_keys-All P (item.occurrence_ids ++ map (λ k. k.occurrence_id) ks)
        (All-append P item.occurrence_ids (map (λ k. k.occurrence_id) ks) k (map-All P ks h))

  fold_into-Returns :
      (item : EmailDelivery) (ids : List ℕ)
      → AreKnown m.occurrences ids
      → Returns (fold_into end_at now item ids (jobs_of m.occurrences ids) m)
  unfolding fold_into
  fold_into-Returns item ids k =
      let (js, e) = jobs_of-known m.occurrences ids k in
      let new = folded_recap m.occurrences end_at now item ids js in
      let n : Mailbox = record m { deliveries = replace new m.deliveries } in
      (
        n,
        rw e refl,
        record {
          of_matches = w.of_matches;
          of_deliveries =
              replace-All (λ (d : EmailDelivery). AreKnown m.occurrences d.occurrence_ids) new
                m.deliveries k w.of_deliveries;
        },
      )

  pub put_recap-Returns :
      (o : Option EmailDelivery)
      → AreIn
      → open_recap user m.deliveries ≡ o
      → Returns (put_recap user start end_at now ks o m)
  unfolding put_recap
  put_recap-Returns none h e = (add_recap user start end_at now ks m, refl, add_recap-Resolved h)
  put_recap-Returns (some item) h e = fold_into-Returns item (folded_ids item ks) (
      folded-known item
        (open_recap-All (λ (d : EmailDelivery). AreKnown m.occurrences d.occurrence_ids) user
          m.deliveries item w.of_deliveries e)
        h)
