-- ===== src/Notifications/Justified.antt =====
-- That app/notifications/worker.py match_events adds only matches that are wanted.
use job_ping.Base.{ℕ, ◌≡◌, false, List, [], ◌∷◌, arith, All, nat_eq, keep, All-append}
use job_ping.Notifications.Models.{Mailbox, Subscriber, JobMatch}
use job_ping.Notifications.Matching.{
  Discovery, mark_processed, match_user, add_alert, is_unwanted, add_match, match_of, match_users,
  match_each, match_events, is_recipient, backlog,
}

add_match-All :
    (P : JobMatch → Type 0) (now : ℕ) (d : Discovery) (u : Subscriber) (m : Mailbox)
    → All P m.matches
    → (is_unwanted d u ≡ false → P (match_of u d))
    → All P (match_user now d u m).matches
unfolding match_user add_alert add_match
add_match-All P now d u m h k = ground (arith, All-append P m.matches (match_of u d ∷ []))

match_users-All :
    (P : JobMatch → Type 0) (now : ℕ) (d : Discovery) (us : List Subscriber) (m : Mailbox)
    → All P m.matches
    → All (λ (u : Subscriber). is_unwanted d u ≡ false → P (match_of u d)) us
    → All P (match_users now d us m).matches
unfolding match_users
match_users-All P now d [] m h k = h
match_users-All P now d (u ∷ us) m h k =
    match_users-All P now d us (match_user now d u m) (add_match-All P now d u m h k.0) k.1

match_each-All :
    (P : JobMatch → Type 0) (now : ℕ) (us : List Subscriber) (ds : List Discovery) (m : Mailbox)
    → All P m.matches
    → All
        (λ (d : Discovery). All (λ (u : Subscriber). is_unwanted d u ≡ false → P (match_of u d)) us)
        ds
    → All P (match_each now us ds m).matches
unfolding match_each mark_processed
match_each-All P now us [] m h k = h
match_each-All P now us (d ∷ ds) m h k =
    match_each-All P now us ds (mark_processed d (match_users now d us m))
      (match_users-All P now d us m h k.0) k.1

-- match_events adds no other match: what all the earlier matches have, and each match of a drawn discovery
-- with a subscriber who is verified, not suppressed and wants it, all matches have afterwards.
pub match_events_justified :
    (P : JobMatch → Type 0) (now : ℕ) (m : Mailbox)
    → All P m.matches
    → All
        (λ (d : Discovery).
          All
            (λ (u : Subscriber). is_unwanted d u ≡ false → P (match_of u d))
            (keep is_recipient m.subscribers))
        (backlog m)
    → All P (match_events now m).matches
unfolding match_events
match_events_justified P now m h k =
    match_each-All P now (keep is_recipient m.subscribers) (backlog m) m h k
