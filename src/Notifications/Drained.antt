-- ===== src/Notifications/Drained.antt =====
-- What app/notifications/worker.py match_events does with the discoveries that it draws.
use mathlib.Core.Path.{subst}
use job_ping.Base.{
  ℕ, ◌≡◌, true, false, List, [], ◌∷◌, arith, All, ◌==◌, nat_eq, any, any-append, sym, keep,
  nat_beq_iff,
}
use job_ping.Notifications.Models.{Mailbox, DiscoveryEvent, Subscriber}
use job_ping.Notifications.Matching.{
  Discovery, set_processed, mark_processed, match_user, add_alert, is_match, is_unwanted, add_match,
  match_of, match_users, match_each, match_events, is_recipient, backlog,
}

-- Every event of this id is processed.
abbrev pub IsDrained : ℕ → Mailbox → Type 0
IsDrained id m = All (λ (e : DiscoveryEvent). (e.id == id) ≡ true → e.processed ≡ true) m.events

-- A subscriber who wants a discovery has its match.
abbrev pub IsServed : Discovery → Mailbox → Subscriber → Type 0
IsServed d m u = is_unwanted d u ≡ false → any (is_match u.id d.occurrence.id) m.matches ≡ true

-- Processing and matching only add: what is matched stays matched, what is processed stays processed.
record Grows (m n : Mailbox) : Type 0 where
  matches_stay :
      (u o : ℕ) → any (is_match u o) m.matches ≡ true → any (is_match u o) n.matches ≡ true
  drained_stay : (id : ℕ) → IsDrained id m → IsDrained id n

Grows-refl : (m : Mailbox) → Grows m m
Grows-refl m = record { matches_stay = λ u o h. h; drained_stay = λ id h. h }

Grows-trans : (l m n : Mailbox) → Grows l m → Grows m n → Grows l n
Grows-trans l m n g h = record {
  matches_stay = λ u o k. h.matches_stay u o (g.matches_stay u o k);
  drained_stay = λ id k. h.drained_stay id (g.drained_stay id k);
}

set_processed-stay :
    (id i : ℕ) (es : List DiscoveryEvent)
    → All (λ (e : DiscoveryEvent). (e.id == id) ≡ true → e.processed ≡ true) es
    → All (λ (e : DiscoveryEvent). (e.id == id) ≡ true → e.processed ≡ true) (set_processed i es)
unfolding set_processed
set_processed-stay id i [] h = tt
set_processed-stay id i (e ∷ es) h = (ground (arith, h.0), set_processed-stay id i es h.1)

set_processed-done :
    (id : ℕ) (es : List DiscoveryEvent)
    → All (λ (e : DiscoveryEvent). (e.id == id) ≡ true → e.processed ≡ true) (set_processed id es)
unfolding set_processed
set_processed-done id [] = tt
set_processed-done id (e ∷ es) = (λ h. ground arith, set_processed-done id es)

processed-Grows : (d : Discovery) (m : Mailbox) → Grows m (mark_processed d m)
unfolding mark_processed
processed-Grows d m = record {
  matches_stay = λ u o h. h;
  drained_stay = λ id h. set_processed-stay id d.event.id m.events h;
}

same_events :
    (now : ℕ) (d : Discovery) (u : Subscriber) (m : Mailbox)
    → (match_user now d u m).events ≡ m.events
unfolding match_user add_alert add_match
same_events now d u m = ground arith

match_user-Grows :
    (now : ℕ) (d : Discovery) (u : Subscriber) (m : Mailbox) → Grows m (match_user now d u m)
unfolding match_user add_alert add_match
match_user-Grows now d u m = record {
  matches_stay =
      λ v o h. let a = any-append (is_match v o) m.matches (match_of u d ∷ []) in ground arith;
  drained_stay = λ id h.
      subst
        (λ (es : List DiscoveryEvent).
          All (λ (e : DiscoveryEvent). (e.id == id) ≡ true → e.processed ≡ true) es)
        (sym (same_events now d u m)) h;
}

match_user-IsServed :
    (now : ℕ) (d : Discovery) (u : Subscriber) (m : Mailbox) → IsServed d (match_user now d u m) u
unfolding match_user add_alert add_match match_of is_match
match_user-IsServed now d u m h =
    let a = any-append (is_match u.id d.occurrence.id) m.matches (match_of u d ∷ []) in
    ground (arith, nat_beq_iff u.id u.id, nat_beq_iff d.occurrence.id d.occurrence.id)

match_users-Grows :
    (now : ℕ) (d : Discovery) (us : List Subscriber) (m : Mailbox)
    → Grows m (match_users now d us m)
unfolding match_users
match_users-Grows now d [] m = Grows-refl m
match_users-Grows now d (u ∷ us) m =
    Grows-trans m (match_user now d u m) (match_users now d (u ∷ us) m) (match_user-Grows now d u m)
      (match_users-Grows now d us (match_user now d u m))

match_users-IsServed :
    (now : ℕ) (d : Discovery) (us : List Subscriber) (m : Mailbox)
    → All (IsServed d (match_users now d us m)) us
unfolding match_users
match_users-IsServed now d [] m = tt
match_users-IsServed now d (u ∷ us) m =
    let n = match_user now d u m in
    (
      λ h.
          (match_users-Grows now d us n).matches_stay u.id d.occurrence.id
            (match_user-IsServed now d u m h),
      match_users-IsServed now d us n,
    )

match_each-Grows :
    (now : ℕ) (us : List Subscriber) (ds : List Discovery) (m : Mailbox)
    → Grows m (match_each now us ds m)
unfolding match_each
match_each-Grows now us [] m = Grows-refl m
match_each-Grows now us (d ∷ ds) m =
    let n = match_users now d us m in
    Grows-trans m n (match_each now us (d ∷ ds) m) (match_users-Grows now d us m) (
      Grows-trans n (mark_processed d n) (match_each now us (d ∷ ds) m) (processed-Grows d n)
        (match_each-Grows now us ds (mark_processed d n)))

IsServed-stays :
    (d : Discovery) (us : List Subscriber) (m n : Mailbox)
    → Grows m n
    → All (IsServed d m) us
    → All (IsServed d n) us
IsServed-stays d [] m n g h = tt
IsServed-stays d (u ∷ us) m n g h =
    (λ k. g.matches_stay u.id d.occurrence.id (h.0 k), IsServed-stays d us m n g h.1)

processed-IsDrained : (d : Discovery) (m : Mailbox) → IsDrained d.event.id (mark_processed d m)
unfolding mark_processed
processed-IsDrained d m = set_processed-done d.event.id m.events

match_each-done :
    (now : ℕ) (us : List Subscriber) (ds : List Discovery) (m : Mailbox)
    → All
        (λ (d : Discovery).
          IsDrained d.event.id (match_each now us ds m)
          × All (IsServed d (match_each now us ds m)) us)
        ds
unfolding match_each
match_each-done now us [] m = tt
match_each-done now us (d ∷ ds) m =
    let n = match_users now d us m in
    let g = match_each-Grows now us ds (mark_processed d n) in
    (
      (
        g.drained_stay d.event.id (processed-IsDrained d n),
        IsServed-stays d us n (match_each now us ds (mark_processed d n))
            (Grows-trans n (mark_processed d n) (match_each now us ds (mark_processed d n))
              (processed-Grows d n) g)
            (match_users-IsServed now d us m),
      ),
      match_each-done now us ds (mark_processed d n),
    )

-- Each discovery that match_events draws is processed when it returns, and each subscriber who is
-- verified, not suppressed and wants the discovery then has its match.
pub match_events_drains :
    (now : ℕ) (m : Mailbox)
    → All
        (λ (d : Discovery).
          IsDrained d.event.id (match_events now m)
          × All (IsServed d (match_events now m)) (keep is_recipient m.subscribers))
        (backlog m)
unfolding match_events
match_events_drains now m = match_each-done now (keep is_recipient m.subscribers) (backlog m) m
