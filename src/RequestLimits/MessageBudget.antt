-- ===== src/RequestLimits/MessageBudget.antt =====
-- What the message budget of app/request_limits/streams.py guarded_receive promises.
use mathlib.Core.List.{append-nil, append_assoc}
use mathlib.Core.Path.{subst}
use job_ping.RequestLimits.Messages.{
  window, drop_old, guarded_receive, Message, receive_all, duration,
}
use job_ping.Base.{
  ℕ, ◌+◌, ◌≤◌, ◌<◌, ◌≡◌, refl, sym, ap, ◌∙◌, inl, inr, some, List, [], ◌∷◌, ◌++◌, arith, length,
  length-append, All, All-append, leb, Bool-cases, Option-cases,
}

-- Messages that are newer than the window stay.
drop_old-recent :
    (now since : ℕ) (new : List ℕ)
    → now < since + window
    → All (λ t. since ≤ t) new
    → drop_old now new ≡ new
unfolding drop_old
drop_old-recent now since [] soon h = refl
drop_old-recent now since (t ∷ new) soon h = ground arith

drop_old-append :
    (now since : ℕ) (old new : List ℕ)
    → now < since + window
    → All (λ t. since ≤ t) new
    → (kept : List ℕ) × (drop_old now (old ++ new) ≡ kept ++ new)
unfolding drop_old
drop_old-append now since [] new soon h = ([], drop_old-recent now since new soon h)
drop_old-append now since (t ∷ old) new soon h = elim (Bool-cases (leb (t + window) now)) [
  | inl gone ↦ rw gone (drop_old-append now since old new soon h)
  | inr stays ↦ rw stays (t ∷ old, refl)
]

guarded_receive-some :
    (now size : ℕ) (ts next : List ℕ)
    → guarded_receive now size ts ≡ some next
    → (length (drop_old now ts) < 10) × (next ≡ drop_old now ts ++ (now ∷ []))
unfolding guarded_receive
guarded_receive-some now size ts next h = ground arith

receive_next :
    (now : ℕ) (m : Message) (ms : List Message) (ts t : List ℕ)
    → receive_all now (m ∷ ms) ts ≡ some t
    → (next : List ℕ) × (guarded_receive (now + m.gap) m.size ts ≡ some next)
      × (receive_all (now + m.gap) ms next ≡ some t)
unfolding receive_all
receive_next now m ms ts t h = elim (Option-cases (guarded_receive (now + m.gap) m.size ts)) [
  | inl refused ↦ absurd (ground arith)
  | inr (next, e) ↦ (next, e, ground arith)
]

length-accepted :
    (now size : ℕ) (ts next : List ℕ) → guarded_receive now size ts ≡ some next → length next ≤ 10
length-accepted now size ts next h =
    let (room, e) = guarded_receive-some now size ts next h in
    omega (arith, length-append (drop_old now ts) (now ∷ []), ap length e)

length-receive_all :
    (now : ℕ) (ms : List Message) (ts t : List ℕ)
    → length ts ≤ 10
    → receive_all now ms ts ≡ some t
    → length t ≤ 10
unfolding receive_all
length-receive_all now [] ts t few h = ground arith
length-receive_all now (m ∷ ms) ts t few h =
    let (next, e, later) = receive_next now m ms ts t h in
    length-receive_all (now + m.gap) ms next t (length-accepted (now + m.gap) m.size ts next e)
      later

All-later :
    (since t : ℕ) (new : List ℕ)
    → since ≤ t
    → All (λ x. since ≤ x) new
    → All (λ x. since ≤ x) (new ++ (t ∷ []))
All-later since t new h all = All-append (λ x. since ≤ x) new (t ∷ []) all (h, tt)

-- Messages accepted since a time that is less than a window ago, `new` of them and then `ms`.
recent_few :
    (now since : ℕ) (old new : List ℕ) (ms : List Message) (t : List ℕ)
    → length (old ++ new) ≤ 10
    → since ≤ now
    → now + duration ms < since + window
    → All (λ x. since ≤ x) new
    → receive_all now ms (old ++ new) ≡ some t
    → length new + length ms ≤ 10
unfolding duration
recent_few now since old new [] t few order soon all h = omega (arith, length-append old new)
recent_few now since old new (m ∷ ms) t few order soon all h =
    let (next, e, later) = receive_next now m ms (old ++ new) t h in
    let (room, shape) = guarded_receive-some (now + m.gap) m.size (old ++ new) next e in
    let (kept, same) = drop_old-append (now + m.gap) since old new (omega arith) all in
    let split : next ≡ kept ++ (new ++ ((now + m.gap) ∷ [])) =
      shape
      ∙ ap (λ x. x ++ ((now + m.gap) ∷ [])) same
      ∙ append_assoc kept new ((now + m.gap) ∷ []) in
    omega (
      arith,
      length-append new ((now + m.gap) ∷ []),
      recent_few (now + m.gap) since kept (new ++ ((now + m.gap) ∷ [])) ms t
          (subst (λ x. length x ≤ 10) split
            (length-accepted (now + m.gap) m.size (old ++ new) next e))
          (omega arith) (omega arith) (All-later since (now + m.gap) new (omega arith) all)
          (subst (λ x. receive_all (now + m.gap) ms x ≡ some t) split later),
    )

-- However a connection's messages began, of those that follow no more than ten are accepted in less
-- than five seconds.
pub messages_bounded :
    (begin now : ℕ) (before ms : List Message) (ts t : List ℕ)
    → receive_all begin before [] ≡ some ts
    → receive_all now ms ts ≡ some t
    → duration ms < window
    → length ms ≤ 10
messages_bounded begin now before ms ts t first then_more short =
    let few = length-receive_all begin before [] ts (omega arith) first in
    let whole : ts ≡ ts ++ [] = sym (append-nil ts) in
    let kept = subst (λ x. length x ≤ 10) whole few in
    let again = subst (λ x. receive_all now ms x ≡ some t) whole then_more in
    omega (arith, recent_few now now ts [] ms t kept (omega arith) (omega arith) tt again)
