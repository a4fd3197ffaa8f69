-- ===== src/Applications/Repository/Answers.antt =====
-- `save_application_answer` of app/db/repository.py.
use job_ping.Base.{
  ℕ, List, Option, Text, codes, Bool, ◌∷◌, true, [], some, leb, ◌&&◌, not, ◌||◌, suc, none, ◌++◌,
  guard, strip, is_empty, ◌==◌, ok, nat_eq, ◌>>=◌, ◌>>◌,
}
use job_ping.Applications.Models.{Instant, Answer, Decimal}
use job_ping.Applications.Repository.Store.{
  M, ensure_application_attempt, secret, empty_answer, empty_source, bad_confidence,
}
use job_ping.Applications.Secrets.Codes.{Unicode, mentions, has_code}

abbrev pub answer_secret_terms : List Text
answer_secret_terms =
    codes "otp"
    ∷ codes "one time password"
    ∷ codes "verification code"
    ∷ codes "security code"
    ∷ codes "authenticator seed"
    ∷ []

abbrev pub question_terms : List Text
question_terms =
    codes "otp"
    ∷ codes "one time"
    ∷ codes "verification"
    ∷ codes "security code"
    ∷ codes "authenticator"
    ∷ codes "enter code"
    ∷ codes "code"
    ∷ []

-- `0 <= (confidence if confidence is not None else 0.0) <= 1`
unfoldable pub is_confidence : Option Decimal → Bool
is_confidence none = true
is_confidence (some d) = leb d.millionths 1000000 && (not d.negative || d.millionths == 0)

pub record NewAnswer : Type 0 where
  pub question : Text
  pub normalized_question : Text
  pub answer : Text
  pub source : Text
  pub generated : Bool
  pub confidence : Option Decimal

-- `session.add(record)` and the flush.
abbrev pub add_answer : ℕ → NewAnswer → M Answer
add_answer application_id n s =
    let a : Answer = record {
      id = s.next_answer_id;
      application_id = application_id;
      question = strip n.question;
      normalized_question = strip n.normalized_question;
      answer = strip n.answer;
      source = strip n.source;
      generated = n.generated;
      confidence = n.confidence;
    } in
    (ok a, record s { answers = s.answers ++ a ∷ []; next_answer_id = suc s.next_answer_id })

module _ (u : Unicode) where
  -- `any(term in combined ...) or (likely_code and verification_context)`
  unfoldable pub answer_has_secret : NewAnswer → Bool
  answer_has_secret n =
      mentions answer_secret_terms (u.casefold (n.question ++ (32 ∷ n.answer)))
      || has_code u.is_decimal n.answer && mentions question_terms (u.casefold n.question)

  unfoldable pub save_application_answer : Instant → ℕ → NewAnswer → M Answer
  unfolding ensure_application_attempt
  save_application_answer now job_id n = do
    guard (not (answer_has_secret n)) secret
    guard
        (not (
          is_empty (strip n.question)
          || is_empty (strip n.normalized_question)
          || is_empty (strip n.answer)))
        empty_answer
    guard (not (is_empty (strip n.source))) empty_source
    guard (is_confidence n.confidence) bad_confidence
    attempt ← ensure_application_attempt now job_id
    add_answer attempt.id n
