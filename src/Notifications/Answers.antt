-- ===== src/Notifications/Answers.antt =====
-- Which answers of the provider are taken as a success, and which as a rejection, by their status and body.
use job_ping.Base.{
  nat_eq, ◌≤◌, ◌<◌, ◌≡◌, refl, ap, ◌∙◌, ◌≢◌, inl, inr, true, Option, none, some, arith, Text,
  nat_beq_iff, Bool-cases,
}
use job_ping.Notifications.Outcome.{
  Response, is_rejection, result_of_name, result_of_body, result_of, Body, taken, is_success,
}

-- An answer of success with an id.
pub record IsSuccess (o : Option Response) (id : Text) : Type 0 where
  pub response : Response
  pub name : Option Text
  pub is_answer : o ≡ some response
  pub at_least : 200 ≤ response.status_code
  pub below : response.status_code < 300
  pub has_id : response.body ≡ Body.object (some id) name

-- An answer in the 400s, other than 429 and 409.
pub record IsRejected (o : Option Response) : Type 0 where
  pub response : Response
  pub is_answer : o ≡ some response
  pub at_least : 400 ≤ response.status_code
  pub below : response.status_code < 500
  pub not_limited : response.status_code ≢ 429
  pub not_conflict : response.status_code ≢ 409

pub rejection-IsRejected : (o : Option Response) → is_rejection o ≡ true → IsRejected o
unfolding is_rejection
rejection-IsRejected none h = absurd (ground arith)
rejection-IsRejected (some r) h = record {
  response = r;
  is_answer = refl;
  at_least = ground arith;
  below = ground arith;
  not_limited = λ e. ground (arith, nat_beq_iff r.status_code 429);
  not_conflict = λ e. ground (arith, nat_beq_iff r.status_code 409);
}

pub IsRejected-rejection : (o : Option Response) → IsRejected o → is_rejection o ≡ true
unfolding is_rejection
IsRejected-rejection o h =
    let c = h.response.status_code in
    rw (h.is_answer) (
      ground (
        arith,
        h.at_least,
        h.below,
        h.not_limited,
        h.not_conflict,
        nat_beq_iff c 429,
        nat_beq_iff c 409,
      ))

named-result : (n : Option Text) (id : Text) → result_of_name n ≢ taken id
unfolding result_of_name
named-result none id h = ground arith
named-result (some n) id h = ground arith

taken-same : {a b : Text} → taken a ≡ taken b → a ≡ b
taken-same h = ground arith

body-IsSuccess :
    (r : Response) (b : Body) (id : Text)
    → r.body ≡ b
    → result_of_body r.status_code b ≡ taken id
    → IsSuccess (some r) id
unfolding result_of_body is_success
body-IsSuccess r Body.not_json id e k = absurd (ground arith)
body-IsSuccess r Body.not_object id e k = absurd (ground arith)
body-IsSuccess r (Body.object none n) id e k = absurd (named-result n id k)
body-IsSuccess r (Body.object (some i) n) id e k = elim (Bool-cases (is_success r.status_code)) [
  | inl t ↦ record {
    response = r;
    name = n;
    is_answer = refl;
    at_least = ground arith;
    below = ground arith;
    has_id = e ∙ ap (λ (x : Text). Body.object (some x) n) (taken-same (rw t at k));
  }
  | inr t ↦ absurd (named-result n id (rw t at k))
]

pub taken-IsSuccess : (o : Option Response) (id : Text) → result_of o ≡ taken id → IsSuccess o id
unfolding result_of
taken-IsSuccess none id h = absurd (ground arith)
taken-IsSuccess (some r) id h = body-IsSuccess r r.body id refl h

pub IsSuccess-taken : (o : Option Response) (id : Text) → IsSuccess o id → result_of o ≡ taken id
unfolding result_of result_of_body is_success
IsSuccess-taken o id h = rw (h.is_answer, h.has_id) (ground (arith, h.at_least, h.below))
