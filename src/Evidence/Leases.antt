-- ===== src/Evidence/Leases.antt =====
-- What the leases of app/evidence/store.py promise: claim and finish.
use mathlib.Core.Path.{subst}
use mathlib.Core.Option.{some_inj}
use job_ping.Evidence.Checks.{
  EvidenceCheck, CheckStatus, is_after, CheckStatus-discrete, check_status_eq,
}
use job_ping.Evidence.Finish.{
  Collected, JobNow, finish, holds_lease, is_incomplete, target_changed, short_of, verified_check,
  all_true, has_error,
}
use job_ping.Evidence.Claims.{
  is_claimable, claimed, comes_first, earlier_of, first_claimable, claim, is_over, claim_found,
}
use job_ping.Base.{
  ℕ, ◌+◌, ◌<◌, ◌≡◌, ◌≢◌, true, false, none, some, arith, Text, ◌==◌, nat_eq, inl, inr, List, [],
  ◌∷◌, All, list_eq, Bool-cases, option_eq, refl, sym, Option, ◌↔◌, ◌⊎◌, Bool, ap, is_empty,
  if◌then◌else◌,
}

-- While a claim lasts its check is not claimed again, and a worker with another token can neither finish
-- it nor change it.
pub claim_excludes :
    (now later token other : ℕ) (w : Collected) (job : JobNow) (c : EvidenceCheck)
    → later < now + 90
    → other ≢ token
    → (is_claimable later (claimed now token c) ≡ false)
      × (finish later other w job (claimed now token c) ≡ (false, claimed now token c))
unfolding is_claimable claimed is_over finish holds_lease CheckStatus-discrete
claim_excludes now later token other w job c soon differ = ground arith

same_text : (a b : Text) → (a == b) ≡ true → a ≡ b
same_text a b = (list_eq.equals_iff a b).0

same_token : (a b : Option ℕ) → (a == b) ≡ true → a ≡ b
same_token a b = (option_eq.equals_iff a b).0

all_true_iff : (bs : List Bool) → (all_true bs ≡ true) ↔ All (λ b. b ≡ true) bs
unfolding all_true
all_true_iff [] = (λ h. tt, λ h. refl)
all_true_iff (b ∷ bs) = ground (arith, all_true_iff bs)

-- There is no error, and there are documents, which are all complete.
pub record IsVerified (w : Collected) : Type 0 where
  pub no_error : (w.error ≡ none) ⊎ (w.error ≡ some [])
  pub has_documents : w.completeness ≢ []
  pub all_complete : All (λ b. b ≡ true) w.completeness

IsVerified-complete : (w : Collected) → IsVerified w → is_incomplete w ≡ false
unfolding is_incomplete has_error
IsVerified-complete w v =
    ground (arith, v.no_error, v.has_documents, all_true_iff w.completeness, v.all_complete)

no_error_cases : (o : Option Text) → has_error o ≡ false → (o ≡ none) ⊎ (o ≡ some [])
unfolding has_error
no_error_cases none h = inl refl
no_error_cases (some []) h = inr refl
no_error_cases (some (x ∷ xs)) h = absurd (ground arith)

complete-IsVerified : (w : Collected) → is_incomplete w ≡ false → IsVerified w
unfolding is_incomplete has_error
complete-IsVerified w h = record {
  no_error = no_error_cases w.error (ground arith);
  has_documents = λ e. absurd (ground (arith, ap (λ (bs : List Bool). is_empty bs) e));
  all_complete = (all_true_iff w.completeness).0 (ground arith);
}

-- The outcome of an accepted finish.
abbrev pub outcome : ℕ → Collected → EvidenceCheck → EvidenceCheck
outcome now w c = if is_incomplete w then short_of now w c else verified_check now w c

accepted_parts :
    (now token : ℕ) (w : Collected) (job : JobNow) (c : EvidenceCheck)
    → (finish now token w job c).0 ≡ true
    → (holds_lease now token c ≡ true)
      × (job.is_current ≡ true)
      × ((w.target == job.target) ≡ true)
      × ((c.target == w.target) ≡ true)
      × ((finish now token w job c).1 ≡ outcome now w c)
unfolding finish
accepted_parts now token w job c h = ground arith

short-status :
    (now : ℕ) (w : Collected) (c : EvidenceCheck) → (short_of now w c).status ≢ CheckStatus.complete
unfolding short_of
short-status now w c k = ground arith

outcome-status :
    (now : ℕ) (w : Collected) (c : EvidenceCheck)
    → ((outcome now w c).lease_token ≡ none)
      × ((outcome now w c).lease_until ≡ none)
      × (((outcome now w c).status ≡ CheckStatus.complete) ↔ IsVerified w)
      × ((outcome now w c).status ≢ CheckStatus.complete → (outcome now w c).error_code ≢ none)
unfolding short_of verified_check
outcome-status now w c = elim (Bool-cases (is_incomplete w)) [
  | inl t ↦ rw t (
    refl,
    refl,
    (
      (λ k. absurd (short-status now w c k)),
      (λ v. absurd (ground (arith, IsVerified-complete w v))),
    ),
    λ k e. ground arith,
  )
  | inr t ↦ rw t (refl, refl, ((λ k. complete-IsVerified w t), (λ v. refl)), λ k. absurd (k refl))
]

-- A finish that is accepted comes from the holder of an unexpired lease on a running check, for the target that the
-- check and the job still have, where the check is of the latest occurrence and both are open. It gives the lease
-- up, and the check is complete exactly when there was no error and there were documents, all complete; else it has
-- an error.
pub finish_accepted :
    (now token : ℕ) (w : Collected) (job : JobNow) (c : EvidenceCheck)
    → (finish now token w job c).0 ≡ true
    → let after = (finish now token w job c).1 in
      (c.lease_token ≡ some token)
      × (c.status ≡ CheckStatus.running)
      × (is_after c.lease_until now ≡ true)
      × (job.is_current ≡ true)
      × (c.target ≡ w.target)
      × (w.target ≡ job.target)
      × (after.lease_token ≡ none)
      × (after.lease_until ≡ none)
      × ((after.status ≡ CheckStatus.complete) ↔ IsVerified w)
      × (after.status ≢ CheckStatus.complete → after.error_code ≢ none)
unfolding finish holds_lease short_of verified_check CheckStatus-discrete
finish_accepted now token w job c h =
    let (holds, current, now_same, then_same, e) = accepted_parts now token w job c h in
    let (token_gone, lease_gone, complete, code) = outcome-status now w c in
    (
      ground (arith, same_token c.lease_token (some token)),
      ground arith,
      ground arith,
      current,
      same_text c.target w.target then_same,
      same_text w.target job.target now_same,
      rw e token_gone,
      rw e lease_gone,
      rw e complete,
      rw e code,
    )

-- A finish without complete documents leaves an earlier projection, its documents and the time of its
-- verification as they are, whoever asks.
pub finish_keeps_projection :
    (now token : ℕ) (w : Collected) (job : JobNow) (c : EvidenceCheck) (p : Text)
    → c.projection ≡ some p
    → is_incomplete w ≡ true
    → let after = (finish now token w job c).1 in
      (after.projection ≡ some p)
      × (after.document_ids ≡ c.document_ids)
      × (after.verified_at ≡ c.verified_at)
unfolding finish short_of target_changed
finish_keeps_projection now token w job c p had short = ground arith

comes_first_refl : (a : EvidenceCheck) → comes_first a a ≡ true
unfolding comes_first
comes_first_refl a = ground arith

comes_first_trans :
    (a b c : EvidenceCheck)
    → comes_first a b ≡ true
    → comes_first b c ≡ true
    → comes_first a c ≡ true
unfolding comes_first
comes_first_trans a b c h k = ground arith

comes_first_total : (a b : EvidenceCheck) → comes_first a b ≡ false → comes_first b a ≡ true
unfolding comes_first
comes_first_total a b h = ground arith

-- No claimable row of the list comes before this one.
abbrev pub Leads : ℕ → EvidenceCheck → List EvidenceCheck → Type 0
Leads now c cs = All (λ x. is_claimable now x ≡ true → comes_first c x ≡ true) cs

Leads-trans :
    (now : ℕ) (a b : EvidenceCheck) (cs : List EvidenceCheck)
    → comes_first a b ≡ true
    → Leads now b cs
    → Leads now a cs
Leads-trans now a b [] h l = tt
Leads-trans now a b (c ∷ cs) h l =
    (λ e. comes_first_trans a b c h (l.0 e), Leads-trans now a b cs h l.1)

none-Leads :
    (now : ℕ) (a : EvidenceCheck) (cs : List EvidenceCheck)
    → first_claimable now cs ≡ none
    → Leads now a cs
unfolding first_claimable
none-Leads now a [] h = tt
none-Leads now a (c ∷ cs) h = elim (Bool-cases (is_claimable now c)) [
  | inl ready ↦ absurd (ground arith)
  | inr idle ↦ (λ e. absurd (ground arith), none-Leads now a cs (ground arith))
]

earlier_before : (x b : EvidenceCheck) → comes_first x b ≡ true → earlier_of x (some b) ≡ x
unfolding earlier_of
earlier_before x b h = rw h refl

earlier_after : (x b : EvidenceCheck) → comes_first x b ≡ false → earlier_of x (some b) ≡ b
unfolding earlier_of
earlier_after x b h = rw h refl

-- The claimable row `x` in front of a list with the first claimable row `rest`.
earlier-Leads :
    (now : ℕ) (x : EvidenceCheck) (cs : List EvidenceCheck) (rest : Option EvidenceCheck)
    → is_claimable now x ≡ true
    → first_claimable now cs ≡ rest
    → ((b : EvidenceCheck) → rest ≡ some b → (is_claimable now b ≡ true) × Leads now b cs)
    → (is_claimable now (earlier_of x rest) ≡ true) × Leads now (earlier_of x rest) (x ∷ cs)
unfolding earlier_of
earlier-Leads now x cs none ready e known =
    (ready, (λ _. comes_first_refl x, none-Leads now x cs e))
earlier-Leads now x cs (some b) ready e known =
    let (can, leads) = known b refl in
    let fits : EvidenceCheck → Type 0 = λ k. (is_claimable now k ≡ true) × Leads now k (x ∷ cs) in
    elim (Bool-cases (comes_first x b)) [
      | inl before ↦
          subst fits (sym (earlier_before x b before))
            (ready, (λ _. comes_first_refl x, Leads-trans now x b cs before leads))
      | inr after ↦
          subst fits (sym (earlier_after x b after))
            (can, (λ _. comes_first_total x b after, leads))
    ]

front :
    (now : ℕ) (x : EvidenceCheck) (cs : List EvidenceCheck) (c : EvidenceCheck)
    → is_claimable now x ≡ true
    → first_claimable now (x ∷ cs) ≡ some c
    → some (earlier_of x (first_claimable now cs)) ≡ some c
unfolding first_claimable
front now x cs c ready h = rw⁻¹ h (rw ready refl)

first_claimable-Leads :
    (now : ℕ) (c : EvidenceCheck) (cs : List EvidenceCheck)
    → first_claimable now cs ≡ some c
    → (is_claimable now c ≡ true) × Leads now c cs
unfolding first_claimable
first_claimable-Leads now c [] h = absurd (ground arith)
first_claimable-Leads now c (x ∷ cs) h = elim (Bool-cases (is_claimable now x)) [
  | inl ready ↦
      subst (λ k. (is_claimable now k ≡ true) × Leads now k (x ∷ cs))
        (some_inj.0 (front now x cs c ready h))
        (earlier-Leads now x cs (first_claimable now cs) ready refl
          (λ b e. first_claimable-Leads now b cs e))
  | inr idle ↦
      let (can, leads) = first_claimable-Leads now c cs (ground arith) in
      (can, (λ e. absurd (ground arith), leads))
]

claim_found-Leads :
    (now token : ℕ) (k : EvidenceCheck) (cs : List EvidenceCheck) (found : Option EvidenceCheck)
    → first_claimable now cs ≡ found
    → (claim_found now token cs found).0 ≡ some k
    → (c : EvidenceCheck) × (k ≡ claimed now token c) × (is_claimable now c ≡ true) × Leads now c cs
unfolding claim_found
claim_found-Leads now token k cs none e h = absurd (ground arith)
claim_found-Leads now token k cs (some c) e h =
    let (can, leads) = first_claimable-Leads now c cs e in (c, sym (some_inj.0 h), can, leads)

-- A claim takes a claimable check that no claimable check precedes by the time of its request and then
-- by its occurrence.
pub claim_takes_first :
    (now token : ℕ) (k : EvidenceCheck) (cs : List EvidenceCheck)
    → (claim now token cs).0 ≡ some k
    → (c : EvidenceCheck) × (k ≡ claimed now token c) × (is_claimable now c ≡ true) × Leads now c cs
unfolding claim
claim_takes_first now token k cs h =
    claim_found-Leads now token k cs (first_claimable now cs) refl h
