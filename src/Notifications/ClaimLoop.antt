-- ===== src/Notifications/ClaimLoop.antt =====
-- app/notifications/worker.py NotificationWorker.claim: the loop over the candidates. `none` is an exception: a
-- delivery without its subscriber.
use job_ping.Base.{ℕ, Option, none, some, List, [], ◌∷◌, find, ◌==◌, nat_eq}
use job_ping.Notifications.Claims.{consider, Services, candidates, verdict, Claimed}
use job_ping.Notifications.Models.{EmailDelivery, Mailbox, Subscriber}

unfoldable pub claim_one :
    Services → ℕ → EmailDelivery → Option Subscriber → Mailbox → Option (Mailbox × Option Claimed)
unfolding consider verdict
claim_one env now d none m = none
claim_one env now d (some u) m = some (consider env now d u (verdict now d u m) m)

-- The loop goes on where a candidate was not claimed.
unfoldable pub claim_rest :
    (Mailbox → Option (Mailbox × Option Claimed))
    → Option (Mailbox × Option Claimed)
    → Option (Mailbox × Option Claimed)
claim_rest go none = none
claim_rest go (some (n, none)) = go n
claim_rest go (some (n, some c)) = some (n, some c)

unfoldable pub claim_each :
    Services → ℕ → List EmailDelivery → Mailbox → Option (Mailbox × Option Claimed)
unfolding claim_one claim_rest
claim_each env now [] m = some (m, none)
claim_each env now (d ∷ ds) m =
    claim_rest (claim_each env now ds)
      (claim_one env now d (find (λ u. u.id == d.subscriber_id) m.subscribers) m)

unfoldable pub claim_delivery : Services → ℕ → Mailbox → Option (Mailbox × Option Claimed)
unfolding candidates claim_each
claim_delivery env now m = claim_each env now (candidates now m.deliveries) m
