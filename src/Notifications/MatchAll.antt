-- ===== src/Notifications/MatchAll.antt =====
-- app/notifications/api.py put_settings: the loop that matches the discoveries until all are processed.
use job_ping.Base.{ℕ, zero, suc, Bool, not, length, any, nat_eq, if◌then◌else◌}
use job_ping.Notifications.Models.{Mailbox, DiscoveryEvent}
use job_ping.Notifications.Matching.{match_events}

-- The query for a discovery that is not processed.
unfoldable pub is_pending : DiscoveryEvent → Bool
is_pending e = not e.processed

-- The loop, in at most so many rounds.
unfoldable pub match_all : ℕ → ℕ → Mailbox → Mailbox
unfolding is_pending match_events
match_all zero now m = m
match_all (suc n) now m =
    let rest = match_all n now (match_events now m) in if any is_pending m.events then rest else m

-- A round processes one discovery at least, so that as many rounds as there are discoveries are enough.
unfoldable pub match_backlog : ℕ → Mailbox → Mailbox
unfolding match_all
match_backlog now m = match_all (length m.events) now m
