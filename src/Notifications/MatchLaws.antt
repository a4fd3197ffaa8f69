-- ===== src/Notifications/MatchLaws.antt =====
-- What app/notifications/worker.py match_events keeps of the tables, and what it leaves of the backlog.
use job_ping.Base.{
  ℕ, ◌≡◌, Bool, true, false, ◌&&◌, [], ◌∷◌, arith, ◌==◌, nat_eq, Apart, any, snoc-Apart, any-append,
  ◌+◌, refl, sym, ◌∙◌, inl, inr, ◌||◌, none, List, ◌++◌, keep, nat_beq_iff, Bool-cases, option_eq,
}
use job_ping.Notifications.Matching.{
  is_match, add_match, add_alert, match_of, Discovery, alert_of, match_user, match_users,
  mark_processed, match_each, match_events, delivery, is_unwanted, is_recipient, backlog,
}
use job_ping.Notifications.Models.{
  DedupeKey, EmailDelivery, Mailbox, JobMatch, of_alert, Subscriber, of_recap, of_test,
}

unfoldable pub same_match : JobMatch → JobMatch → Bool
unfolding is_match
same_match k l = is_match l.subscriber_id l.occurrence_id k

unfoldable pub is_alert_key : ℕ → ℕ → DedupeKey → Bool
is_alert_key user occurrence (of_alert u o) = u == user && o == occurrence
is_alert_key user occurrence (of_recap u e) = false
is_alert_key user occurrence (of_test n) = false

unfoldable pub is_alert : ℕ → ℕ → EmailDelivery → Bool
unfolding is_alert_key
is_alert user occurrence d = is_alert_key user occurrence d.dedupe_key

unfoldable pub same_alert_key : DedupeKey → DedupeKey → Bool
unfolding is_alert_key
same_alert_key k (of_alert u o) = is_alert_key u o k
same_alert_key k (of_recap u e) = false
same_alert_key k (of_test n) = false

abbrev pub same_alert : EmailDelivery → EmailDelivery → Bool
same_alert a b = same_alert_key a.dedupe_key b.dedupe_key

-- The unique constraint on matches and that on the keys of alerts, and that an alert has its match.
pub record Matched (m : Mailbox) : Type 0 where
  pub one_match : Apart same_match m.matches
  pub one_alert : Apart same_alert m.deliveries
  pub alerted :
      (u o : ℕ) → any (is_alert u o) m.deliveries ≡ true → any (is_match u o) m.matches ≡ true

add_match-Matched :
    (u : Subscriber) (d : Discovery) (m : Mailbox)
    → Matched m
    → any (is_match u.id d.occurrence.id) m.matches ≡ false
    → Matched (add_match u d m)
unfolding add_match same_match match_of
add_match-Matched u d m w h = record {
  one_match = snoc-Apart same_match m.matches (match_of u d) w.one_match h;
  one_alert = w.one_alert;
  alerted = λ v o k.
      rw (any-append (is_match v o) m.matches (match_of u d ∷ []))
        (ground (arith, w.alerted v o k));
}

abbrev push_alert : ℕ → Subscriber → Discovery → Mailbox → Mailbox
push_alert now u d m = record m {
  deliveries = m.deliveries ++ (alert_of m.next_uuid now u d ∷ []);
  next_uuid = m.next_uuid + 1;
}

push_alert-Matched :
    (now : ℕ) (u : Subscriber) (d : Discovery) (m : Mailbox)
    → Matched m
    → any (is_match u.id d.occurrence.id) m.matches ≡ true
    → any (is_alert u.id d.occurrence.id) m.deliveries ≡ false
    → Matched (push_alert now u d m)
unfolding same_alert_key is_alert alert_of delivery
push_alert-Matched now u d m w h k = record {
  one_match = w.one_match;
  one_alert = snoc-Apart same_alert m.deliveries (alert_of m.next_uuid now u d) w.one_alert k;
  alerted = λ v o a.
      let b =
        sym (any-append (is_alert v o) m.deliveries (alert_of m.next_uuid now u d ∷ [])) ∙ a in
      ground (arith, w.alerted v o);
}

add_alert-Matched :
    (now : ℕ) (u : Subscriber) (d : Discovery) (m : Mailbox)
    → Matched m
    → any (is_match u.id d.occurrence.id) m.matches ≡ true
    → any (is_alert u.id d.occurrence.id) m.deliveries ≡ false
    → Matched (add_alert now u d m)
unfolding add_alert
add_alert-Matched now u d m w h k = elim (Bool-cases (u.alerts && d.occurrence.closed_at == none)) [
  | inl e ↦ rw e (push_alert-Matched now u d m w h k)
  | inr e ↦ rw e w
]

no_alert :
    (u o : ℕ) (m : Mailbox)
    → Matched m
    → any (is_match u o) m.matches ≡ false
    → any (is_alert u o) m.deliveries ≡ false
no_alert u o m w h = ground (arith, w.alerted u o)

has_match :
    (u : Subscriber) (d : Discovery) (m : Mailbox)
    → any (is_match u.id d.occurrence.id) (add_match u d m).matches ≡ true
unfolding add_match match_of is_match
has_match u d m =
    rw (any-append (is_match u.id d.occurrence.id) m.matches (match_of u d ∷ []))
      (ground (arith, nat_beq_iff u.id u.id))

same_deliveries :
    (u : Subscriber) (d : Discovery) (m : Mailbox) → (add_match u d m).deliveries ≡ m.deliveries
unfolding add_match
same_deliveries u d m = refl

match_user-Matched :
    (now : ℕ) (d : Discovery) (u : Subscriber) (m : Mailbox)
    → Matched m
    → Matched (match_user now d u m)
unfolding match_user
match_user-Matched now d u m w =
    elim (Bool-cases (is_unwanted d u || any (is_match u.id d.occurrence.id) m.matches)) [
      | inl e ↦ rw e w
      | inr e ↦
          let h : any (is_match u.id d.occurrence.id) m.matches ≡ false = ground arith in
          rw e (
            add_alert-Matched now u d (add_match u d m) (add_match-Matched u d m w h)
              (has_match u d m) (no_alert u.id d.occurrence.id m w h))
    ]

match_users-Matched :
    (now : ℕ) (d : Discovery) (us : List Subscriber) (m : Mailbox)
    → Matched m
    → Matched (match_users now d us m)
unfolding match_users
match_users-Matched now d [] m w = w
match_users-Matched now d (u ∷ us) m w =
    match_users-Matched now d us (match_user now d u m) (match_user-Matched now d u m w)

processed-Matched : (d : Discovery) (m : Mailbox) → Matched m → Matched (mark_processed d m)
unfolding mark_processed
processed-Matched d m w = record {
  one_match = w.one_match;
  one_alert = w.one_alert;
  alerted = w.alerted;
}

match_each-Matched :
    (now : ℕ) (us : List Subscriber) (ds : List Discovery) (m : Mailbox)
    → Matched m
    → Matched (match_each now us ds m)
unfolding match_each
match_each-Matched now us [] m w = w
match_each-Matched now us (d ∷ ds) m w =
    match_each-Matched now us ds (mark_processed d (match_users now d us m))
      (processed-Matched d (match_users now d us m) (match_users-Matched now d us m w))

-- Matching keeps the unique constraints without an error of the database: where no two matches are of one
-- subscriber and occurrence, no two alerts have one dedupe key, and every alert has its match, the same
-- holds after match_events.
pub match_events-Matched : (now : ℕ) (m : Mailbox) → Matched m → Matched (match_events now m)
unfolding match_events
match_events-Matched now m w =
    match_each-Matched now (keep is_recipient m.subscribers) (backlog m) m w
