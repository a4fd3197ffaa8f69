-- ===== src/Notifications/PlacesKept.antt =====
-- That the handlers of app/notifications/api.py keep to the ten places on the shared mail account.
use job_ping.Base.{
  ℕ, refl, inl, inr, Bool, true, false, not, ◌||◌, Option, none, some, List, [], ◌∷◌, arith, find,
  any, ◌==◌, nat_eq, Bool-cases, Text, codes, list_eq, Result, ok, err, Exec, is_empty, pure, guard,
  modify, Keeps, Keeps-seq, ◌>>=◌, ◌>>◌, and_then,
}
use job_ping.Notifications.Models.{Subscriber, Mailbox}
use job_ping.Notifications.Budget.{is_shared}
use job_ping.Notifications.Claims.{set_user}
use job_ping.Notifications.Webhook.{RequestError, http, cancel_pending, or_undone}
use job_ping.Notifications.Admitted.{Caller, Fresh, admit}
use job_ping.Notifications.Preferences.{
  is_recent_test, encrypted_hook, PreferenceCall, Surroundings, handle, respond, store_provider,
  with_provider, remove_provider, without_provider, queue_test, unsubscribe_found, opted_out,
  get_settings, put_settings, put_provider, delete_provider, test_provider, unsubscribe, has_place,
  settle_settings,
}
use job_ping.Notifications.Places.{
  HasPlaces, IsAdmitted, set-HasPlaces, cancel-HasPlaces, admit-IsAdmitted,
}
use job_ping.Notifications.SettingsPlaces.{settle-HasPlaces}

admitted-HasPlaces :
    (id : ℕ) (r : Result RequestError Subscriber × Mailbox) → IsAdmitted id r → HasPlaces r.1
admitted-HasPlaces id (ok u, n) h = h.0
admitted-HasPlaces id (err e, n) h = h

module _ (f : Fresh) (who : Caller) (timezone : Text) where
  admit-step : (m : Mailbox) → HasPlaces m → IsAdmitted who.uid (admit f who timezone m)
  unfolding admit
  admit-step m h =
      admit-IsAdmitted f who timezone (find (λ u. u.id == who.uid) m.subscribers) m h refl

  admit-Keeps : Keeps HasPlaces (admit f who timezone)
  admit-Keeps = record {
    at = λ m h. admitted-HasPlaces who.uid (admit f who timezone m) (admit-step m h);
  }

  -- An action that follows an admission, and may read the caller's row.
  after-admission :
      (g : Subscriber → Exec RequestError Mailbox Unit)
      → ((u : Subscriber) (n : Mailbox) → IsAdmitted who.uid (ok u, n) → HasPlaces (g u n).1)
      → Keeps HasPlaces (admit f who timezone >>= g)
  after-admission g k = record { at = λ m h. cases (admit f who timezone m) (admit-step m h) }
    where
      cases :
          (r : Result RequestError Subscriber × Mailbox)
          → IsAdmitted who.uid r
          → HasPlaces (and_then r.0 g r.1).1
      cases (ok u, n) h = k u n h
      cases (err e, n) h = h

store-HasPlaces :
    (f : Fresh) (sender : Text) (user : ℕ) (c : Option Text) (k : Option (Option Text))
    (m : Mailbox)
    → HasPlaces m
    → HasPlaces (store_provider f sender user c k m).1
unfolding store_provider with_provider has_place is_shared
store-HasPlaces f sender user (some c) (some k) m h =
    set-HasPlaces user (with_provider f sender c k) (cancel_pending user m) (λ u. refl)
      (λ u k. absurd (ground arith)) (cancel-HasPlaces user m h)
store-HasPlaces f sender user none k m h = h
store-HasPlaces f sender user (some c) none m h = h

remove-HasPlaces :
    (f : Fresh) (user : ℕ) (m : Mailbox) → HasPlaces m → HasPlaces (remove_provider f user m)
unfolding remove_provider without_provider has_place is_shared
remove-HasPlaces f user m h =
    set-HasPlaces user (without_provider f) (cancel_pending user m) (λ u. refl)
      (λ u k. absurd (ground arith)) (cancel-HasPlaces user m h)

queue-HasPlaces :
    (now : ℕ) (u : Subscriber) (m : Mailbox) → HasPlaces m → HasPlaces (queue_test now u m).1
unfolding queue_test
queue-HasPlaces now u m h = elim (Bool-cases (not u.verified || u.suppressed)) [
  | inl t ↦ rw t h
  | inr t ↦ elim (Bool-cases (is_shared u.provider || is_empty u.key_ciphertext)) [
    | inl k ↦ rw (t, k) h
    | inr k ↦ elim (Bool-cases (any (is_recent_test u.id now) m.deliveries)) [
      | inl l ↦ rw (t, k, l) h
      | inr l ↦ rw (t, k, l) (record { one_row = h.one_row; places = h.places })
    ]
  ]
]

unsubscribe-HasPlaces :
    (o : Option Subscriber) (m : Mailbox) → HasPlaces m → HasPlaces (unsubscribe_found o m).1
unfolding unsubscribe_found opted_out has_place
unsubscribe-HasPlaces none m h = h
unsubscribe-HasPlaces (some u) m h =
    cancel-HasPlaces u.id (set_user u.id opted_out m)
      (set-HasPlaces u.id opted_out m (λ u. refl) (λ u k. absurd (ground arith)) h)

guard-Keeps : {E S : Type 0} (P : S → Type 0) (b : Bool) (e : E) → Keeps P (guard {S = S} b e)
guard-Keeps P true e = record { at = λ s h. h }
guard-Keeps P false e = record { at = λ s h. h }

handle-Keeps :
    (env : Surroundings) (f : Fresh) (now : ℕ) (c : PreferenceCall)
    → Keeps HasPlaces (handle env f now c)
unfolding handle
handle-Keeps env f now (get_settings who timezone) =
    Keeps-seq HasPlaces (guard (env.is_zone timezone) (http 422) >> admit f who timezone) (pure tt)
      (Keeps-seq HasPlaces (guard (env.is_zone timezone) (http 422)) (admit f who timezone)
        (guard-Keeps HasPlaces (env.is_zone timezone) (http 422)) (admit-Keeps f who timezone))
      (record { at = λ m h. h })
handle-Keeps env f now (put_settings who s) =
    Keeps-seq HasPlaces (guard (env.is_zone s.timezone) (http 422))
      (admit f who (codes "UTC") >>= settle_settings env.zones now s who)
      (guard-Keeps HasPlaces (env.is_zone s.timezone) (http 422))
      (after-admission f who (codes "UTC") (settle_settings env.zones now s who)
        (settle-HasPlaces env.zones now s who))
handle-Keeps env f now (put_provider who b) =
    let cipher = env.encrypt b.api_key in
    let hook = encrypted_hook env.encrypt b.webhook_secret in
    Keeps-seq HasPlaces (admit f who (codes "UTC")) (store_provider f b.sender who.uid cipher hook)
      (admit-Keeps f who (codes "UTC"))
      (record { at = store-HasPlaces f b.sender who.uid cipher hook })
handle-Keeps env f now (delete_provider who) =
    Keeps-seq HasPlaces (admit f who (codes "UTC")) (modify (remove_provider f who.uid))
      (admit-Keeps f who (codes "UTC")) (record { at = remove-HasPlaces f who.uid })
handle-Keeps env f now (test_provider who) =
    after-admission f who (codes "UTC") (queue_test now) (λ u n h. queue-HasPlaces now u n h.0)
handle-Keeps env f now (unsubscribe token) = record {
  at = λ m h. unsubscribe-HasPlaces (find (λ u. u.unsubscribe_token == token) m.subscribers) m h;
}

undone-HasPlaces :
    (m : Mailbox) (r : Result RequestError Unit × Mailbox)
    → HasPlaces m
    → HasPlaces r.1
    → HasPlaces (or_undone m r).1
unfolding or_undone
undone-HasPlaces m (ok t, n) h k = k
undone-HasPlaces m (err e, n) h k = h

-- The requests, one after the other, each with its random texts and its time.
unfoldable pub respond_all : Surroundings → List (Fresh × ℕ × PreferenceCall) → Mailbox → Mailbox
unfolding respond
respond_all env [] m = m
respond_all env ((f, now, c) ∷ cs) m = respond_all env cs (respond env f now c m).1

-- Where there is one row for a subscriber and ten places on the shared account are taken at most, there are so after
-- any requests for settings and accounts by any callers, in any order.
pub respond_all-HasPlaces :
    (env : Surroundings) (cs : List (Fresh × ℕ × PreferenceCall)) (m : Mailbox)
    → HasPlaces m
    → HasPlaces (respond_all env cs m)
unfolding respond_all respond
respond_all-HasPlaces env [] m h = h
respond_all-HasPlaces env ((f, now, c) ∷ cs) m h =
    respond_all-HasPlaces env cs (respond env f now c m).1
      (undone-HasPlaces m (handle env f now c m) h ((handle-Keeps env f now c).at m h))
