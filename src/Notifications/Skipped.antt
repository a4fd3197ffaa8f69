-- ===== src/Notifications/Skipped.antt =====
-- What app/notifications/worker.py NotificationWorker.claim leaves of the tables as it passes candidates over: the ids
-- of the deliveries, what they are charged to, the accounts and the occurrences.
use job_ping.Base.{
  ℕ, ◌≡◌, refl, sym, ap, ◌∙◌, inl, inr, Bool, true, false, Option, none, some, List, [], ◌∷◌, arith,
  Text, find, All, All-keep, All-order, All-take, ◌==◌, nat_eq, nat_beq_iff, Apart, any, keep, map,
  length, Bool-cases, leb, take, order_by, ◌&&◌, option_eq, codes,
}
use mathlib.Core.Path.{subst}
use job_ping.Notifications.Models.{
  EmailDelivery, Subscriber, Mailbox, Account, DeliveryStatus, account_eq, SenderStatus,
}
use job_ping.Notifications.Budget.{is_charged, charged_since}
use job_ping.Notifications.Recaps.{replace}
use job_ping.Notifications.Claims.{
  Services, Claimed, consider, attempt_verified, hand_over, delayed, put_delivery, set_user,
  sender_key, body_of, ClaimVerdict, pass_over, mark, lapse, pause, attempt, candidates,
  is_candidate, queried_first, claimed_first,
}
use job_ping.Notifications.UniqueIds.{same_id}

-- What a delivery is charged to, and when it was first attempted.
abbrev pub Charge : Type 0
Charge = ℕ × Option Account × Option ℕ

abbrev pub charge : EmailDelivery → Charge
charge d = (d.id, d.account, d.first_attempt)

abbrev counts : Account → ℕ → Charge → Bool
counts account since c = c.1 == some account && elim c.2 [ none ↦ false | some t ↦ leb since t ]

charged-charges :
    (account : Account) (since : ℕ) (ds : List EmailDelivery)
    → charged_since account since ds ≡ length (keep (counts account since) (map charge ds))
unfolding charged_since is_charged
charged-charges account since [] = refl
charged-charges account since (d ∷ ds) = ground (arith, charged-charges account since ds)

pub same-charges :
    (account : Account) (since : ℕ) (ds es : List EmailDelivery)
    → map charge ds ≡ map charge es
    → charged_since account since ds ≡ charged_since account since es
same-charges account since ds es h =
    charged-charges account since ds
    ∙ ap (λ (cs : List Charge). length (keep (counts account since) cs)) h
    ∙ sym (charged-charges account since es)

-- The charges of this id are this delivery's.
abbrev pub IsCharge : EmailDelivery → List Charge → Type 0
IsCharge d cs = All (λ (c : Charge). c.0 ≡ d.id → c ≡ charge d) cs

absent-IsCharge :
    (d : EmailDelivery) (ds : List EmailDelivery)
    → any (same_id d) ds ≡ false
    → IsCharge d (map charge ds)
absent-IsCharge d [] h = tt
absent-IsCharge d (e ∷ ds) h =
    (λ k. absurd (ground (arith, nat_beq_iff d.id e.id)), absent-IsCharge d ds (ground arith))

absent-apart :
    (d : EmailDelivery) (ds : List EmailDelivery)
    → any (same_id d) ds ≡ false
    → All (λ (e : EmailDelivery). (d.id == e.id) ≡ false) ds
absent-apart d [] h = tt
absent-apart d (e ∷ ds) h = (ground arith, absent-apart d ds (ground arith))

-- A delivery of the table is found by its id, and its charge is the only one of its id.
unfoldable pub IsRow : List EmailDelivery → EmailDelivery → Type 0
IsRow ds d = (find (λ e. e.id == d.id) ds ≡ some d) × IsCharge d (map charge ds)

widen :
    (d : EmailDelivery) (ds es : List EmailDelivery)
    → All (IsRow ds) es
    → All (λ (e : EmailDelivery). (d.id == e.id) ≡ false) es
    → All (IsRow (d ∷ ds)) es
unfolding IsRow
widen d ds [] h k = tt
widen d ds (e ∷ es) h k = (
  (ground (arith, h.0.0), ((λ t. absurd (ground (arith, nat_beq_iff d.id e.id))), h.0.1)),
  widen d ds es h.1 k.1,
)

pub rows : (ds : List EmailDelivery) → Apart same_id ds → All (IsRow ds) ds
unfolding IsRow
rows [] a = tt
rows (d ∷ ds) a = (
  (ground (arith, nat_beq_iff d.id d.id), ((λ k. refl), absent-IsCharge d ds a.0)),
  widen d ds ds (rows ds a.1) (absent-apart d ds a.0),
)

-- What the loop leaves of the tables it started with, as far as the checks of a later candidate read them.
pub record Retained (m q : Mailbox) : Type 0 where
  pub charges : map charge q.deliveries ≡ map charge m.deliveries
  pub accounts : q.accounts ≡ m.accounts
  pub occurrences : q.occurrences ≡ m.occurrences

pub Retained-refl : (m : Mailbox) → Retained m m
Retained-refl m = record { charges = refl; accounts = refl; occurrences = refl }

replace-charges :
    (d new : EmailDelivery) (ds : List EmailDelivery)
    → IsCharge d (map charge ds)
    → charge new ≡ charge d
    → map charge (replace new ds) ≡ map charge ds
unfolding replace
replace-charges d new [] h e = refl
replace-charges d new (x ∷ ds) h e =
    let rest = replace-charges d new ds h.1 e in
    let same : new.id ≡ d.id = ap (λ (c : Charge). c.0) e in
    elim (Bool-cases (x.id == new.id)) [
      | inl t ↦
          let it : x.id ≡ d.id = ground (arith, nat_beq_iff x.id new.id) in
          rw (t, rest, e) (ap (λ (c : Charge). c ∷ map charge ds) (sym (h.0 it)))
      | inr t ↦ rw (t, rest) refl
    ]

put-Retained :
    (d new : EmailDelivery) (m q : Mailbox)
    → IsCharge d (map charge m.deliveries)
    → charge new ≡ charge d
    → Retained m q
    → Retained m (put_delivery new q)
unfolding put_delivery
put-Retained d new m q h e s = record {
  charges = replace-charges d new q.deliveries (subst (IsCharge d) (sym s.charges) h) e ∙ s.charges;
  accounts = s.accounts;
  occurrences = s.occurrences;
}

user-Retained :
    (id : ℕ) (f : Subscriber → Subscriber) (m q : Mailbox)
    → Retained m q
    → Retained m (set_user id f q)
unfolding set_user
user-Retained id f m q s = record {
  charges = s.charges;
  accounts = s.accounts;
  occurrences = s.occurrences;
}

module _ (env : Services) (now : ℕ) (d : EmailDelivery) (u : Subscriber) (m q r : Mailbox)
    (h : IsCharge d (map charge m.deliveries)) (s : Retained m q) where
  handed-Retained : (k b : Option Text) → hand_over now d u k b q ≡ (r, none) → Retained m r
  unfolding hand_over
  handed-Retained none b e =
      subst (Retained m) (ap (λ (p : Mailbox × Option Claimed). p.0) e)
        (user-Retained u.id (λ v. record v { status = SenderStatus.configuration_error }) m q s)
  handed-Retained (some k) none e =
      subst (Retained m) (ap (λ (p : Mailbox × Option Claimed). p.0) e)
        (user-Retained u.id (λ v. record v { status = SenderStatus.configuration_error }) m q s)
  handed-Retained (some k) (some b) e = absurd (ground arith)

  attempted-Retained :
      (o : Option Bool) → attempt_verified env now d u o q ≡ (r, none) → Retained m r
  unfolding attempt_verified delayed
  attempted-Retained none e =
      subst (Retained m) (ap (λ (p : Mailbox × Option Claimed). p.0) e)
        (put-Retained d (delayed now (codes "recipient_verification_unavailable") d) m q h refl s)
  attempted-Retained (some false) e =
      subst (Retained m) (ap (λ (p : Mailbox × Option Claimed). p.0) e) (
        put-Retained d (record d { status = DeliveryStatus.cancelled }) m
          (set_user u.id (λ v. record v { verified = false }) q) h refl
          (user-Retained u.id (λ v. record v { verified = false }) m q s))
  attempted-Retained (some true) e = handed-Retained (sender_key env u) (body_of env q d u) e

  -- A candidate that is passed over leaves them.
  pub consider-Retained : (v : ClaimVerdict) → consider env now d u v q ≡ (r, none) → Retained m r
  unfolding consider delayed
  consider-Retained pass_over e =
      subst (Retained m) (ap (λ (p : Mailbox × Option Claimed). p.0) e) s
  consider-Retained (mark t) e =
      subst (Retained m) (ap (λ (p : Mailbox × Option Claimed). p.0) e)
        (put-Retained d (record d { status = t }) m q h refl s)
  consider-Retained lapse e = subst (Retained m) (ap (λ (p : Mailbox × Option Claimed). p.0) e) (
      put-Retained d
        (record d {
          status = DeliveryStatus.reconcile;
          error_code = some (codes "idempotency_window_expired");
        })
        m q h refl s)
  consider-Retained pause e =
      subst (Retained m) (ap (λ (p : Mailbox × Option Claimed). p.0) e)
        (put-Retained d (delayed now (codes "quota_paused") d) m q h refl s)
  consider-Retained attempt e = attempted-Retained (env.verify_recipient u.id u.email) e

-- A row that the tables still have is found again where it is replaced.
pub replaced-found :
    (d new : EmailDelivery) (ds qs : List EmailDelivery)
    → find (λ e. e.id == d.id) ds ≡ some d
    → map charge qs ≡ map charge ds
    → new.id ≡ d.id
    → find (λ e. e.id == d.id) (replace new qs) ≡ some new
unfolding replace
replaced-found d new [] qs h e k = absurd (ground arith)
replaced-found d new (x ∷ ds) [] h e k = absurd (ground arith)
replaced-found d new (x ∷ ds) (y ∷ qs) h e k =
    let ids : y.id ≡ x.id = ground arith in
    let rest : map charge qs ≡ map charge ds = ground arith in
    ground (
      arith,
      nat_beq_iff y.id new.id,
      nat_beq_iff x.id d.id,
      nat_beq_iff y.id d.id,
      nat_beq_iff new.id d.id,
      λ (t : find (λ e. e.id == d.id) ds ≡ some d). replaced-found d new ds qs t rest k,
    )

-- What the candidates keep of the table's rows.
pub candidates-keep :
    (P : EmailDelivery → Type 0) (now : ℕ) (ds : List EmailDelivery)
    → All P ds
    → All P (candidates now ds)
unfolding candidates
candidates-keep P now ds h =
    let found = order_by queried_first (keep (is_candidate now) ds) in
    All-order P (claimed_first ds) (take 500 found) (
      All-take P 500 found (
        All-order P queried_first (keep (is_candidate now) ds)
          (All-keep P (is_candidate now) ds h)))
