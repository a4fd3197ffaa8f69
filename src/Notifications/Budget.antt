-- ===== src/Notifications/Budget.antt =====
-- app/notifications/worker.py budget: the quota of an account for a first attempt.
use job_ping.Base.{
  ℕ, ◌-◌, ◌*◌, Bool, true, false, not, ◌&&◌, Option, none, some, List, length, keep, find, ltb, leb,
  if◌then◌else◌, ◌==◌, nat_eq, option_eq,
}
use job_ping.Notifications.Models.{
  EmailAccount, Provider, Account, DeliveryKind, Subscriber, EmailDelivery, Mailbox,
  delivery_kind_eq, own, account_eq, shared_account,
}

abbrev pub days : ℕ → ℕ
days n = n * 86400

unfoldable pub blocks_at : ℕ → Option EmailAccount → Bool
blocks_at now none = false
blocks_at now (some a) = elim a.blocked_until [ none ↦ false | some t ↦ ltb now t ]

unfoldable pub is_shared : Provider → Bool
is_shared Provider.shared = true
is_shared Provider.byok = false

-- `scope`: the subscribers that an account sends for.
unfoldable pub is_in_scope : Account → Subscriber → Bool
unfolding is_shared
is_in_scope shared_account u = is_shared u.provider
is_in_scope (own id) u = u.id == id

unfoldable pub counts_recap : Account → Subscriber → Bool
unfolding is_in_scope
counts_recap account u = is_in_scope account u && u.recap && u.verified && not u.suppressed

unfoldable pub recaps_of : Account → List Subscriber → ℕ
unfolding counts_recap
recaps_of account us = length (keep (counts_recap account) us)

-- Charged to the account, and first attempted since a time.
unfoldable pub is_charged : Account → ℕ → EmailDelivery → Bool
is_charged account since d =
    d.account == some account && elim d.first_attempt [ none ↦ false | some t ↦ leb since t ]

unfoldable pub charged_since : Account → ℕ → List EmailDelivery → ℕ
unfolding is_charged
charged_since account since ds = length (keep (is_charged account since) ds)

-- What is kept back for the recaps of so many days.
unfoldable pub reserve : DeliveryKind → ℕ → ℕ
reserve kind recaps = if kind == DeliveryKind.recap then 0 else recaps

unfoldable pub budget : Account → DeliveryKind → ℕ → Mailbox → Bool
unfolding blocks_at recaps_of charged_since reserve
budget account kind now m =
    if blocks_at now (find (λ a. a.id == account) m.accounts)
    then false
    else ltb (charged_since account (now - days 1) m.deliveries)
        (90 - reserve kind (recaps_of account m.subscribers))
      && ltb (charged_since account (now - days 31) m.deliveries)
          (2900 - reserve kind (recaps_of account m.subscribers * 31))
