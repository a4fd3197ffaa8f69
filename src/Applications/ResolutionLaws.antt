-- ===== src/Applications/ResolutionLaws.antt =====
-- What app/applications/resolver.py promises: protected questions are never drafted, and stories are given only for a
-- question that may be.
use job_ping.Base.{
  ◌≤◌, ◌≡◌, refl, ◌≢◌, inl, inr, true, false, not, ◌||◌, Option, none, some, List, [], ◌∷◌, arith,
  length, All, Text, Bool-cases, elem, ok, nat_eq, list_eq, ap, ◌∙◌,
}
use job_ping.Applications.Resolver.{
  Category, Resolver, category_in, aliases_table, fact_value, structured_answer,
}
use job_ping.Applications.Resolution.{
  matched_by, unmatched, first_answer, resolve, stored_stories, bounded_stories, get_stories,
  AnswerResolution, AnswerSource, is_protected, resolve_normalized, stories_for, allows_generation,
  candidate_profile, answer_bank, bank_answer,
}

abbrev pub category_of : (Text → Text) → Text → Option Category
category_of normalize question = category_in aliases_table (normalize question)

-- An answer is given, or a draft is allowed, or a review is required, and only one of them; a protected question is
-- never to be drafted.
pub record IsSafe (r : Resolver) (category : Option Category) (q : Text) (a : AnswerResolution)
    : Type 0 where
  pub known_or_not :
      a.answer ≢ none
      → (a.generation_allowed ≡ false) × (a.requires_review ≡ false) × (a.relevant_stories ≡ [])
  pub draft_or_review : a.answer ≡ none → a.requires_review ≡ not a.generation_allowed
  pub draft_is_allowed :
      a.generation_allowed ≡ true
      → (a.answer ≡ none)
        × (is_protected r category q ≡ false)
        × (allows_generation r category q ≡ true)
  pub stories_need_draft : a.generation_allowed ≡ false → a.relevant_stories ≡ []

matched-IsSafe :
    (r : Resolver) (category : Option Category) (q : Text) (source : AnswerSource) (reply : Text)
    → IsSafe r category q (matched_by source reply)
unfolding matched_by
matched-IsSafe r category q source reply = record {
  known_or_not = λ h. (refl, refl, refl);
  draft_or_review = λ h. absurd (ground arith);
  draft_is_allowed = λ h. absurd (ground arith);
  stories_need_draft = λ h. refl;
}

unmatched-IsSafe :
    (r : Resolver) (category : Option Category) (q : Text)
    → IsSafe r category q (unmatched r category q)
unfolding unmatched
unmatched-IsSafe r category q = elim (Bool-cases (is_protected r category q)) [
  | inl e ↦ rw e (record {
    known_or_not = λ h. absurd (h refl);
    draft_or_review = λ h. refl;
    draft_is_allowed = λ h. absurd (ground arith);
    stories_need_draft = λ h. refl;
  })
  | inr e ↦ rw e (record {
    known_or_not = λ h. absurd (h refl);
    draft_or_review = λ h. refl;
    draft_is_allowed = λ h. (refl, e, h);
    stories_need_draft = λ h. rw h refl;
  })
]

first-IsSafe :
    (r : Resolver) (category : Option Category) (q : Text) (a b c : Option Text)
    (rest : AnswerResolution)
    → IsSafe r category q rest
    → IsSafe r category q (first_answer a b c rest)
unfolding first_answer
first-IsSafe r category q (some a) b c rest h = matched-IsSafe r category q candidate_profile a
first-IsSafe r category q none (some b) c rest h = matched-IsSafe r category q answer_bank b
first-IsSafe r category q none none (some c) rest h = matched-IsSafe r category q answer_bank c
first-IsSafe r category q none none none rest h = h

-- A question is resolved to an answer that is known, to a draft, or to a review, and to one of them only; a draft is
-- allowed only where no answer is known, the question is not protected and the policy names its category or a phrase
-- in it; and stories are offered only for a draft.
pub resolve-IsSafe :
    (normalize : Text → Text) (r : Resolver) (question : Text)
    → IsSafe r (category_of normalize question) (normalize question) (resolve normalize r question)
unfolding resolve resolve_normalized
resolve-IsSafe normalize r question =
    let q = normalize question in
    let category = category_in aliases_table q in
    first-IsSafe r category q (fact_value r category) (structured_answer r category)
      (bank_answer normalize q r.application_answers) (unmatched r category q)
      (unmatched-IsSafe r category q)

stored-All :
    (stories selected : List Text)
    → All (λ (s : Text). elem s selected ≡ true) (stored_stories stories selected)
unfolding stored_stories
stored-All [] selected = tt
stored-All (s ∷ stories) selected = ground (arith, stored-All stories selected)

none_stored : (stories : List Text) → stored_stories stories [] ≡ []
unfolding stored_stories elem
none_stored [] = refl
none_stored (s ∷ stories) = none_stored stories

bounded-ok :
    (r : Resolver) (selected l : List Text)
    → bounded_stories r selected ≡ ok l
    → (length selected ≤ 20) × (l ≡ stored_stories r.stories selected)
unfolding bounded_stories
bounded-ok r selected l h = (ground arith, ground arith)

no_stories :
    (r : Resolver) (category : Option Category) (q : Text) (a : AnswerResolution)
    → IsSafe r category q a
    → (is_protected r category q || not (allows_generation r category q)) ≡ true
    → stories_for a ≡ []
unfolding stories_for
no_stories r category q a w h = elim (Bool-cases a.generation_allowed) [
  | inl e ↦ let (x, y, z) = w.draft_is_allowed e in absurd (ground arith)
  | inr e ↦ rw e refl
]

-- Stories that are given for a question are the stored ones that its resolution offers, 20 at most are offered, and
-- where the question is protected or not allowed to be drafted there are none.
pub stories_of_question :
    (normalize : Text → Text) (r : Resolver) (question : Text) (l : List Text)
    → get_stories normalize r none (some question) ≡ ok l
    → (length (stories_for (resolve normalize r question)) ≤ 20)
      × All (λ (s : Text). elem s (stories_for (resolve normalize r question)) ≡ true) l
      × ((is_protected r (category_of normalize question) (normalize question)
              || not (allows_generation r (category_of normalize question) (normalize question)))
            ≡ true
          → l ≡ [])
unfolding get_stories
stories_of_question normalize r question l h =
    let a = resolve normalize r question in
    let (k, e) = bounded-ok r (stories_for a) l h in
    (
      k,
      rw e (stored-All r.stories (stories_for a)),
      λ p.
          e
          ∙ ap (stored_stories r.stories) (
              no_stories r (category_of normalize question) (normalize question) a
                (resolve-IsSafe normalize r question) p)
          ∙ none_stored r.stories,
    )
