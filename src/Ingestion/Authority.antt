-- ===== src/Ingestion/Authority.antt =====
-- What app/services/location_reconciliation.py promises of competing sources.
use mathlib.Core.Bool.{true≢false}
use job_ping.Ingestion.Models.{NormalizedJob, Rules}
use job_ping.Ingestion.Location.{
  is_meaningful_location, source_name, source_tier, text_ltb, name_wins, named_wins, source_wins,
  location_or, effective_place, reconcile_location,
}
use job_ping.Base.{
  ◌≡◌, true, false, Option, [], ◌∷◌, arith, Text, ℕ, refl, sym, ap, ◌∙◌, ◌≢◌, inl, inr, Bool, not,
  none, some, list_eq, is_empty, ltb, if◌then◌else◌, Bool-cases, ◌==◌, nat_eq, ◌≤◌, ltb→lt,
}
use job_ping.Ingestion.Posting.{choose_canonical_apply_url, url_preference}

text_ltb-asym : (s t : Text) → text_ltb s t ≡ true → text_ltb t s ≡ false
unfolding text_ltb
text_ltb-asym s [] h = absurd (ground arith)
text_ltb-asym [] (c ∷ t) h = ground arith
text_ltb-asym (a ∷ s) (b ∷ t) h = ground (arith, text_ltb-asym s t)

-- name_wins of two names, of their tiers and order alone.
tiers_win : Bool → ℕ → ℕ → Bool → Bool
tiers_win same candidate current before =
    if same
    then true
    else if not (candidate == current)
    then ltb current candidate
    else if candidate == 0
    then false
    else before

name_wins_lem :
    (a b : Text) → name_wins a b ≡ tiers_win (a == b) (source_tier a) (source_tier b) (text_ltb a b)
unfolding name_wins tiers_win
name_wins_lem a b = refl

tiers_win-false :
    (a b : ℕ) (x y : Bool)
    → (x ≡ true → y ≡ false)
    → tiers_win false a b x ≡ true
    → tiers_win false b a y ≡ false
unfolding tiers_win
tiers_win-false a b x y asym h = ground arith

differ-sym : (a b : Text) → (a == b) ≡ false → (b == a) ≡ false
differ-sym a b h = elim (Bool-cases (b == a)) [
  | inl same ↦
      absurd
        (true≢false (sym ((list_eq.equals_iff a b).1 (sym ((list_eq.equals_iff b a).0 same))) ∙ h))
  | inr other ↦ other
]

name_wins-antisym : (a b : Text) → name_wins a b ≡ true → name_wins b a ≡ true → a ≡ b
name_wins-antisym a b h k = elim (Bool-cases (a == b)) [
  | inl same ↦ (list_eq.equals_iff a b).0 same
  | inr other ↦ absurd (
      true≢false (
        sym (sym (name_wins_lem b a) ∙ k)
        ∙ ap (λ x. tiers_win x (source_tier b) (source_tier a) (text_ltb b a))
            (differ-sym a b other)
        ∙ tiers_win-false (source_tier a) (source_tier b) (text_ltb a b) (text_ltb b a)
            (text_ltb-asym a b)
            (sym (ap (λ x. tiers_win x (source_tier a) (source_tier b) (text_ltb a b)) other)
              ∙ sym (name_wins_lem a b)
              ∙ h)))
]

named_wins-antisym : (a b : Option Text) → named_wins a b ≡ true → named_wins b a ≡ true → a ≡ b
unfolding named_wins
named_wins-antisym none none h k = refl
named_wins-antisym none (some b) h k = absurd (ground arith)
named_wins-antisym (some a) none h k = absurd (ground arith)
named_wins-antisym (some a) (some b) h k = ap some (name_wins-antisym a b h k)

-- Two sources can overwrite each other's location only where they are the same source, up to the
-- spelling of its name, or both are unnamed: no two sources take turns.
pub source_wins-antisym :
    (u : Rules) (a b : Option Text)
    → source_wins u a b ≡ true
    → source_wins u b a ≡ true
    → source_name u a ≡ source_name u b
unfolding source_wins
source_wins-antisym u a b h k = named_wins-antisym (source_name u a) (source_name u b) h k

-- An observation without a meaningful location leaves one that is stored, with its source, as it is,
-- and one that meets a stored location that is not meaningful replaces it.
pub reconcile_keeps :
    (u : Rules) (job : NormalizedJob) (stored : Text) (source : Option Text)
    → is_meaningful_location u (some stored) ≢ is_meaningful_location u (some job.location)
    → is_empty stored ≡ false
    → let after = reconcile_location u job (some stored) source in
      (after.location ≡ (if is_meaningful_location u (some stored) then stored else job.location))
      × (after.location_source ≡ (
          if is_meaningful_location u (some stored)
          then source
          else source_name u job.location_source))
unfolding reconcile_location effective_place location_or
reconcile_keeps u job stored source differ full = ground arith

-- Of two URLs with a canonical form that is not empty, the one that is kept is preferred no less than
-- either, and it is the stored one unless the incoming one is preferred to it.
pub choose_prefers :
    (u : Rules) (current incoming : Text)
    → is_empty (u.canonicalize current) ≡ false
    → is_empty (u.canonicalize incoming) ≡ false
    → let chosen = choose_canonical_apply_url u current incoming in
      (url_preference u (u.canonicalize current) ≤ url_preference u chosen)
      × (url_preference u (u.canonicalize incoming) ≤ url_preference u chosen)
      × (url_preference u (u.canonicalize incoming) ≤ url_preference u (u.canonicalize current)
          → chosen ≡ u.canonicalize current)
unfolding choose_canonical_apply_url
choose_prefers u current incoming some_current some_incoming =
    elim (Bool-cases (
      ltb (url_preference u (u.canonicalize current))
        (url_preference u (u.canonicalize incoming)))) [
          | inl better ↦
              rw (some_current, some_incoming, better)
                (
                  omega (arith, ltb→lt _ _ better),
                  omega arith,
                  λ h. absurd (omega (arith, h, ltb→lt _ _ better)),
                )
          | inr kept ↦ rw (some_current, some_incoming, kept) (omega arith, ground arith, λ h. refl)
        ]
