-- ===== src/Notifications/Sending.antt =====
-- app/notifications/worker.py NotificationWorker.send_one: the accounts that an answer blocks, and the whole step.
use job_ping.Base.{
  ℕ, ◌+◌, Bool, true, false, Option, none, some, List, [], ◌∷◌, find, Text, codes, ltb, leb,
  if◌then◌else◌, ◌==◌, nat_eq,
}
use job_ping.Notifications.Models.{
  Account, EmailAccount, Mailbox, account_eq, EmailDelivery, Subscriber,
}
use job_ping.Notifications.Outcome.{
  SendResult, Response, settled, sender_status, taken, known_error, result_of, daily_quota_exceeded,
  monthly_quota_exceeded, network_error, provider_error,
}
use job_ping.Notifications.Claims.{Claimed, Services, set_user, put_delivery}
use job_ping.Notifications.ClaimLoop.{claim_delivery}
use job_ping.Notifications.Budget.{days}

-- The row of an account, which is added where it is missing.
unfoldable pub with_account :
    Account → (EmailAccount → EmailAccount) → List EmailAccount → List EmailAccount
with_account id f [] = f (record { id = id; blocked_until = none; error_code = none }) ∷ []
with_account id f (a ∷ as_) =
    let rest = with_account id f as_ in if a.id == id then f a ∷ as_ else a ∷ rest

unfoldable pub block_until : ℕ → Text → EmailAccount → EmailAccount
block_until until code a = record a { blocked_until = some until; error_code = some code }

-- `blocked_until is None or blocked_until < until`
unfoldable pub extended : ℕ → EmailAccount → EmailAccount
unfolding block_until
extended until a = elim a.blocked_until [
  | none ↦ block_until until (codes "quota_paused") a
  | some t ↦ if ltb t until then block_until until (codes "quota_paused") a else a
]

unfoldable pub after_result : ℕ → SendResult → Account → List EmailAccount → List EmailAccount
unfolding with_account block_until
after_result now daily_quota_exceeded id as_ =
    with_account id (block_until (now + days 1) (codes "daily_quota_exceeded")) as_
after_result now monthly_quota_exceeded id as_ =
    with_account id (block_until (now + days 31) (codes "monthly_quota_exceeded")) as_
after_result now (taken t) id as_ = as_
after_result now network_error id as_ = as_
after_result now provider_error id as_ = as_
after_result now (known_error name) id as_ = as_

-- A quota header at its threshold blocks the account for so many days.
unfoldable pub after_header : ℕ → Option ℕ → ℕ → ℕ → Account → List EmailAccount → List EmailAccount
unfolding extended with_account
after_header now none threshold n id as_ = as_
after_header now (some used) threshold n id as_ =
    if leb threshold used then with_account id (extended (now + days n)) as_ else as_

unfoldable pub after_headers : ℕ → Option Response → Account → List EmailAccount → List EmailAccount
unfolding after_header
after_headers now none id as_ = as_
after_headers now (some r) id as_ =
    after_header now r.monthly_used 2900 31 id (after_header now r.daily_used 90 1 id as_)

unfoldable pub settle_found :
    ℕ → Option Response → EmailDelivery → Subscriber → Account → Mailbox → Mailbox
unfolding settled sender_status after_result after_headers set_user put_delivery result_of
settle_found now o d u account m =
    let n =
      set_user u.id (λ v. record v { status = sender_status o (result_of o) d u })
        (put_delivery (settled now o (result_of o) d) m) in
    record n {
      accounts = after_headers now o account (after_result now (result_of o) account n.accounts);
    }

-- The transaction after the answer. A claimed delivery has an account and a subscriber; without them the code raises.
unfoldable pub settle : ℕ → Option Response → ℕ → Mailbox → Option Mailbox
unfolding settle_found
settle now o id m = elim (find (λ d. d.id == id) m.deliveries) [
  | none ↦ none
  | some d ↦ elim (find (λ u. u.id == d.subscriber_id) m.subscribers) [
    | none ↦ none
    | some u ↦ elim d.account [
      | none ↦ none
      | some account ↦ some (settle_found now o d u account m)
    ]
  ]
]

-- send_one, where `post` is the provider: false where no delivery was claimed.
unfoldable pub send_claimed :
    (Claimed → Option Response) → ℕ → Option (Mailbox × Option Claimed) → Option (Bool × Mailbox)
unfolding settle
send_claimed post now none = none
send_claimed post now (some (m, none)) = some (false, m)
send_claimed post now (some (m, some c)) = elim (settle now (post c) c.delivery_id m) [
  | none ↦ none
  | some n ↦ some (true, n)
]

unfoldable pub send_one :
    Services → (Claimed → Option Response) → ℕ → Mailbox → Option (Bool × Mailbox)
unfolding send_claimed claim_delivery
send_one env post now m = send_claimed post now (claim_delivery env now m)
