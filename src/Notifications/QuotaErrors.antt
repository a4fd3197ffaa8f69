-- ===== src/Notifications/QuotaErrors.antt =====
-- What a quota error, or a quota header, leaves of the budget of its account.
use job_ping.Base.{
  ℕ, ◌+◌, ◌<◌, ◌≡◌, true, false, Option, none, some, List, [], ◌∷◌, arith, find, ◌==◌, nat_eq,
  option_eq, refl, Text, codes, ◌≤◌, ap, ◌∙◌, ◌≢◌, Apart,
}
use job_ping.Notifications.Outcome.{
  Response, SendResult, result_of, taken, known_error, network_error, daily_quota_exceeded,
  provider_error, monthly_quota_exceeded,
}
use job_ping.Notifications.Sending.{
  with_account, extended, after_header, after_headers, after_result, block_until, settle_found,
}
use job_ping.Notifications.Models.{
  Account, EmailDelivery, EmailAccount, account_beq_iff, account_eq, delivery_status_eq,
  DeliveryKind, Subscriber, Mailbox,
}
use job_ping.Notifications.Budget.{blocks_at, days, budget}
use job_ping.Notifications.Claims.{Services, Claimed, account_of}
use job_ping.Notifications.UniqueIds.{same_id}
use job_ping.Notifications.ClaimLoop.{claim_delivery}
use job_ping.Notifications.Grants.{claim_budget}

blocks-with_account :
    (later : ℕ) (id : Account) (f : EmailAccount → EmailAccount) (as_ : List EmailAccount)
    → ((a : EmailAccount) → (f a).id ≡ a.id)
    → ((a : EmailAccount) → blocks_at later (some (f a)) ≡ true)
    → blocks_at later (find (λ a. a.id == id) (with_account id f as_)) ≡ true
unfolding with_account
blocks-with_account later id f [] e h =
    let new : EmailAccount = record { id = id; blocked_until = none; error_code = none } in
    ground (arith, e new, h new, account_beq_iff (f new).id id)
blocks-with_account later id f (a ∷ as_) e h = ground (
  arith,
  e a,
  h a,
  account_beq_iff (f a).id id,
  account_beq_iff a.id id,
  blocks-with_account later id f as_ e h,
)

stays-with_account :
    (later : ℕ) (id : Account) (f : EmailAccount → EmailAccount) (as_ : List EmailAccount)
    → ((a : EmailAccount) → (f a).id ≡ a.id)
    → ((a : EmailAccount) → blocks_at later (some a) ≡ true → blocks_at later (some (f a)) ≡ true)
    → blocks_at later (find (λ a. a.id == id) as_) ≡ true
    → blocks_at later (find (λ a. a.id == id) (with_account id f as_)) ≡ true
unfolding with_account blocks_at
stays-with_account later id f [] e h k = absurd (ground arith)
stays-with_account later id f (a ∷ as_) e h k = ground (
  arith,
  e a,
  h a,
  account_beq_iff (f a).id id,
  account_beq_iff a.id id,
  stays-with_account later id f as_ e h,
)

extended-stays :
    (later until : ℕ) (a : EmailAccount)
    → ((extended until a).id ≡ a.id)
      × (blocks_at later (some a) ≡ true → blocks_at later (some (extended until a)) ≡ true)
unfolding extended blocks_at
extended-stays later until a = (ground arith, λ h. ground arith)

header-blocks :
    (later : ℕ) (used : Option ℕ) (now threshold n : ℕ) (id : Account) (as_ : List EmailAccount)
    → blocks_at later (find (λ a. a.id == id) as_) ≡ true
    → blocks_at later (find (λ a. a.id == id) (after_header now used threshold n id as_)) ≡ true
unfolding after_header
header-blocks later none now threshold n id as_ h = h
header-blocks later (some used) now threshold n id as_ h = ground (
  arith,
  stays-with_account later id (extended (now + days n)) as_
      (λ a. (extended-stays later (now + days n) a).0)
      (λ a. (extended-stays later (now + days n) a).1) h,
)

extended-blocks :
    (later : ℕ) (o : Option Response) (now : ℕ) (id : Account) (as_ : List EmailAccount)
    → blocks_at later (find (λ a. a.id == id) as_) ≡ true
    → blocks_at later (find (λ a. a.id == id) (after_headers now o id as_)) ≡ true
unfolding after_headers
extended-blocks later none now id as_ h = h
extended-blocks later (some r) now id as_ h =
    header-blocks later r.monthly_used now 2900 31 id (after_header now r.daily_used 90 1 id as_)
      (header-blocks later r.daily_used now 90 1 id as_ h)

-- The quota that an answer reports as used up.
abbrev pub quota_days : SendResult → ℕ
quota_days daily_quota_exceeded = 1
quota_days monthly_quota_exceeded = 31
quota_days (taken id) = 0
quota_days network_error = 0
quota_days provider_error = 0
quota_days (known_error name) = 0

block_until-blocks :
    (later until : ℕ) (code : Text) (a : EmailAccount)
    → later < until
    → blocks_at later (some (block_until until code a)) ≡ true
unfolding blocks_at block_until
block_until-blocks later until code a h = ground arith

result-blocks :
    (now later : ℕ) (id : Account) (as_ : List EmailAccount) (r : SendResult)
    → now ≤ later
    → later < now + days (quota_days r)
    → blocks_at later (find (λ a. a.id == id) (after_result now r id as_)) ≡ true
unfolding after_result
result-blocks now later id as_ daily_quota_exceeded l h =
    blocks-with_account later id (block_until (now + days 1) (codes "daily_quota_exceeded")) as_
      (λ a. refl) (λ a. block_until-blocks later (now + days 1) (codes "daily_quota_exceeded") a h)
result-blocks now later id as_ monthly_quota_exceeded l h =
    blocks-with_account later id (block_until (now + days 31) (codes "monthly_quota_exceeded")) as_
      (λ a. refl)
      (λ a. block_until-blocks later (now + days 31) (codes "monthly_quota_exceeded") a h)
result-blocks now later id as_ (taken t) l h = absurd (omega arith)
result-blocks now later id as_ network_error l h = absurd (omega arith)
result-blocks now later id as_ provider_error l h = absurd (omega arith)
result-blocks now later id as_ (known_error name) l h = absurd (omega arith)

blocked-budget :
    (later : ℕ) (kind : DeliveryKind) (account : Account) (m : Mailbox)
    → blocks_at later (find (λ a. a.id == account) m.accounts) ≡ true
    → budget account kind later m ≡ false
unfolding budget
blocked-budget later kind account m h = rw h refl

-- After an answer that a quota of an account is used up, for a day where it is the daily quota and for 31 days where it
-- is the monthly one, and as long as the account's row is the one that this answer left: whatever else the tables then
-- are, what claim grants for a first attempt is not to a subscriber of that account.
pub quota_error_stops :
    (env : Services) (now later : ℕ) (o : Option Response) (d : EmailDelivery) (u : Subscriber)
    (account : Account) (m k n : Mailbox) (c : Claimed) (e : EmailDelivery) (v : Subscriber)
    → now ≤ later
    → later < now + days (quota_days (result_of o))
    → find (λ a. a.id == account) k.accounts
      ≡ find (λ a. a.id == account) (settle_found now o d u account m).accounts
    → Apart same_id k.deliveries
    → claim_delivery env later k ≡ some (n, some c)
    → find (λ f. f.id == c.delivery_id) k.deliveries ≡ some e
    → e.first_attempt ≡ none
    → find (λ w. w.id == e.subscriber_id) n.subscribers ≡ some v
    → account_of v ≢ account
unfolding settle_found
quota_error_stops env now later o d u account m k n c e v l h row a g f t w same =
    let blocks : blocks_at later (find (λ a. a.id == account) k.accounts) ≡ true =
      ap (blocks_at later) row
      ∙ extended-blocks later o now account (after_result now (result_of o) account m.accounts)
          (result-blocks now later account m.accounts (result_of o) l h) in
    let passed = claim_budget env later k n c e v a g f w t in
    let stopped =
      blocked-budget later e.kind account (record k { subscribers = n.subscribers }) blocks in
    let failed : budget (account_of v) e.kind later (record k { subscribers = n.subscribers })
        ≡ false =
      rw same stopped in
    absurd (ground (arith, passed, failed))
