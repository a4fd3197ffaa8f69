-- ===== src/Notifications/OutcomeLaws.antt =====
-- What an answer of the provider leaves of a delivery.
use job_ping.Base.{
  ℕ, ◌+◌, ◌*◌, ◌^◌, ◌≤◌, ◌<◌, min, ◌≡◌, true, Option, none, some, arith, nat_eq, option_eq, refl,
  sym, ap, ◌∙◌, ◌≢◌, ◌↔◌, ◌⊎◌, inl, inr, Bool-cases, Text,
}
use mathlib.Core.Option.{some_inj}
use job_ping.Notifications.Outcome.{
  Body, backoff, Response, retry_of, SendResult, retry_body, retry_header, code_of, is_rejection,
  after_error, put_off, result_of, settled, taken_as, given_up, taken, is_reported, known_error,
  network_error, daily_quota_exceeded, provider_error, monthly_quota_exceeded,
}
use job_ping.Notifications.Models.{EmailDelivery, DeliveryStatus, account_eq, delivery_status_eq}
use job_ping.Notifications.Budget.{days}
use job_ping.Notifications.Answers.{
  IsSuccess, IsRejected, taken-IsSuccess, IsSuccess-taken, rejection-IsRejected,
  IsRejected-rejection,
}

header-bounds : (t : Option ℕ) → (1 ≤ retry_header t) × (retry_header t ≤ 86400)
unfolding retry_header
header-bounds none = (omega arith, omega arith)
header-bounds (some t) = (omega arith, omega arith)

body-bounds : (b : Body) (t : Option ℕ) → (1 ≤ retry_body b t) × (retry_body b t ≤ 86400)
unfolding retry_body
body-bounds Body.not_json t = (omega arith, omega arith)
body-bounds Body.not_object t = header-bounds t
body-bounds (Body.object id name) t = header-bounds t

retry-bounds : (o : Option Response) → (1 ≤ retry_of o) × (retry_of o ≤ 86400)
unfolding retry_of
retry-bounds none = (omega arith, omega arith)
retry-bounds (some r) = body-bounds r.body r.retry_after

backoff-bounds :
    (o : Option Response) (attempts : ℕ)
    → (1 ≤ backoff (retry_of o) attempts) × (backoff (retry_of o) attempts ≤ 86400)
unfolding backoff
backoff-bounds o attempts =
    let n = 15 * 2 ^ min attempts 8 in
    let k = retry-bounds o in (omega (arith, k.0), omega (arith, k.1))

-- By the result that is read from an answer.
record SettledAs (now : ℕ) (o : Option Response) (r : SendResult) (e : EmailDelivery) : Type 0 where
  is_released : e.lease_until ≡ none
  is_ended :
      (e.status ≡ DeliveryStatus.accepted)
      ⊎ (e.status ≡ DeliveryStatus.pending)
      ⊎ (e.status ≡ DeliveryStatus.failed)
  is_accepted : (e.status ≡ DeliveryStatus.accepted) ↔ (code_of r ≡ none)
  comes_back : e.status ≡ DeliveryStatus.pending → (now < e.due_at) × (e.due_at ≤ now + days 31)
  is_failed : e.status ≡ DeliveryStatus.failed → is_rejection o ≡ true

error-SettledAs :
    (now : ℕ) (o : Option Response) (r : SendResult) (d : EmailDelivery)
    → code_of r ≢ none
    → d.lease_until ≡ none
    → SettledAs now o r (after_error now o d)
unfolding after_error put_off
error-SettledAs now o r d c l =
    let k = backoff-bounds o d.attempts in
    elim (Bool-cases (is_rejection o)) [
      | inl e ↦ rw e (record {
        is_released = l;
        is_ended = inr (inr refl);
        is_accepted = (λ h. absurd (ground arith), λ h. absurd (ground arith));
        comes_back = λ h. absurd (ground arith);
        is_failed = λ h. e;
      })
      | inr e ↦ rw e (record {
        is_released = l;
        is_ended = inr (inl refl);
        is_accepted = (λ h. absurd (ground arith), λ h. absurd (ground arith));
        comes_back = λ h. (omega (arith, k.0), omega (arith, k.1));
        is_failed = λ h. absurd (ground arith);
      })
    ]

delayed-SettledAs :
    (now n : ℕ) (o : Option Response) (r : SendResult) (d : EmailDelivery)
    → code_of r ≢ none
    → d.lease_until ≡ none
    → 1 ≤ n
    → n ≤ 31
    → SettledAs now o r (put_off (now + days n) d)
unfolding put_off
delayed-SettledAs now n o r d c l a b = record {
  is_released = l;
  is_ended = inr (inl refl);
  is_accepted = (λ h. absurd (ground arith), λ h. absurd (ground arith));
  comes_back = λ h. (omega (arith, a), omega (arith, b));
  is_failed = λ h. absurd (ground arith);
}

taken-SettledAs :
    (now : ℕ) (o : Option Response) (id : Text) (d : EmailDelivery)
    → d.status ≡ DeliveryStatus.sending
    → SettledAs now o (taken id) (taken_as id (given_up (taken id) d))
unfolding taken_as given_up is_reported code_of
taken-SettledAs now o id d h = record {
  is_released = refl;
  is_ended = inl (ground arith);
  is_accepted = (λ k. refl, λ k. ground arith);
  comes_back = λ k. absurd (ground arith);
  is_failed = λ k. absurd (ground arith);
}

result-SettledAs :
    (now : ℕ) (o : Option Response) (d : EmailDelivery)
    → d.status ≡ DeliveryStatus.sending
    → (r : SendResult) → SettledAs now o r (settled now o r d)
unfolding settled given_up code_of
result-SettledAs now o d h (taken id) = taken-SettledAs now o id d h
result-SettledAs now o d h network_error =
    error-SettledAs now o network_error (given_up network_error d) (λ e. ground arith) refl
result-SettledAs now o d h provider_error =
    error-SettledAs now o provider_error (given_up provider_error d) (λ e. ground arith) refl
result-SettledAs now o d h daily_quota_exceeded =
    delayed-SettledAs now 1 o daily_quota_exceeded (given_up daily_quota_exceeded d)
      (λ e. ground arith) refl (omega arith) (omega arith)
result-SettledAs now o d h monthly_quota_exceeded =
    delayed-SettledAs now 31 o monthly_quota_exceeded (given_up monthly_quota_exceeded d)
      (λ e. ground arith) refl (omega arith) (omega arith)
result-SettledAs now o d h (known_error name) =
    error-SettledAs now o (known_error name) (given_up (known_error name) d) (λ e. ground arith)
      refl

-- What is said of a delivery that was being sent.
pub record Settled (now : ℕ) (o : Option Response) (e : EmailDelivery) : Type 0 where
  pub is_released : e.lease_until ≡ none
  pub is_ended :
      (e.status ≡ DeliveryStatus.accepted)
      ⊎ (e.status ≡ DeliveryStatus.pending)
      ⊎ (e.status ≡ DeliveryStatus.failed)
  pub is_accepted : (e.status ≡ DeliveryStatus.accepted) ↔ ((id : Text) × IsSuccess o id)
  pub takes_id : (id : Text) → IsSuccess o id → (e.provider_id ≡ some id) × (e.error_code ≡ none)
  pub has_error : e.status ≢ DeliveryStatus.accepted → e.error_code ≢ none
  pub comes_back : e.status ≡ DeliveryStatus.pending → (now < e.due_at) × (e.due_at ≤ now + days 31)
  pub is_failed : e.status ≡ DeliveryStatus.failed → IsRejected o
  pub fails :
      IsRejected o
      → result_of o ≢ daily_quota_exceeded
      → result_of o ≢ monthly_quota_exceeded
      → e.status ≡ DeliveryStatus.failed

settled-code :
    (now : ℕ) (o : Option Response) (r : SendResult) (d : EmailDelivery)
    → (settled now o r d).error_code ≡ code_of r
unfolding settled given_up taken_as after_error put_off
settled-code now o (taken id) d = refl
settled-code now o network_error d = ground arith
settled-code now o provider_error d = ground arith
settled-code now o daily_quota_exceeded d = refl
settled-code now o monthly_quota_exceeded d = refl
settled-code now o (known_error name) d = ground arith

settled-id :
    (now : ℕ) (o : Option Response) (id : Text) (d : EmailDelivery)
    → (settled now o (taken id) d).provider_id ≡ some id
unfolding settled taken_as
settled-id now o id d = refl

rejected-fails :
    (now : ℕ) (o : Option Response) (r : SendResult) (d : EmailDelivery)
    → is_rejection o ≡ true
    → ((id : Text) → r ≢ taken id)
    → r ≢ daily_quota_exceeded
    → r ≢ monthly_quota_exceeded
    → (settled now o r d).status ≡ DeliveryStatus.failed
unfolding settled after_error
rejected-fails now o (taken id) d h a b c = absurd (a id refl)
rejected-fails now o network_error d h a b c = rw h refl
rejected-fails now o provider_error d h a b c = rw h refl
rejected-fails now o daily_quota_exceeded d h a b c = absurd (b refl)
rejected-fails now o monthly_quota_exceeded d h a b c = absurd (c refl)
rejected-fails now o (known_error name) d h a b c = rw h refl

uncoded-taken : (r : SendResult) → code_of r ≡ none → (id : Text) × (r ≡ taken id)
unfolding code_of
uncoded-taken (taken id) h = (id, refl)
uncoded-taken network_error h = absurd (ground arith)
uncoded-taken provider_error h = absurd (ground arith)
uncoded-taken daily_quota_exceeded h = absurd (ground arith)
uncoded-taken monthly_quota_exceeded h = absurd (ground arith)
uncoded-taken (known_error name) h = absurd (ground arith)

success-code : (o : Option Response) (id : Text) → IsSuccess o id → code_of (result_of o) ≡ none
unfolding code_of
success-code o id h = rw (IsSuccess-taken o id h) refl

apart : (o : Option Response) (id : Text) → IsRejected o → ¬ IsSuccess o id
apart o id r h =
    let same : r.response ≡ h.response = some_inj.0 (sym r.is_answer ∙ h.is_answer) in
    let code = ap (λ (x : Response). x.status_code) same in omega (arith, code, r.at_least, h.below)

-- Whatever the provider answers, and where it does not, a delivery that was being sent is given up by the worker that
-- sent it. It is accepted exactly when the answer was a success with an id, which is then recorded and no error;
-- else an error is. It has failed only after an answer in the 400s other than 429 and 409, and after each of these
-- that does not name a quota; else it is pending and due again, later than now and within 31 days.
pub settled_outcome :
    (now : ℕ) (o : Option Response) (d : EmailDelivery)
    → d.status ≡ DeliveryStatus.sending
    → Settled now o (settled now o (result_of o) d)
settled_outcome now o d h =
    let e = settled now o (result_of o) d in
    let w = result-SettledAs now o d h (result_of o) in
    let code = settled-code now o (result_of o) d in
    record {
      is_released = w.is_released;
      is_ended = w.is_ended;
      is_accepted = (
        (λ k.
            let (id, t) = uncoded-taken (result_of o) (w.is_accepted.0 k) in
            (id, taken-IsSuccess o id t)),
        (λ k. w.is_accepted.1 (success-code o k.0 k.1)),
      );
      takes_id =
          λ id k. (rw (IsSuccess-taken o id k) (settled-id now o id d), code ∙ success-code o id k);
      has_error = λ k n. k (w.is_accepted.1 (sym code ∙ n));
      comes_back = w.comes_back;
      is_failed = λ k. rejection-IsRejected o (w.is_failed k);
      fails = λ k a b.
          rejected-fails now o (result_of o) d (IsRejected-rejection o k)
            (λ id t. apart o id k (taken-IsSuccess o id t)) a b;
    }
