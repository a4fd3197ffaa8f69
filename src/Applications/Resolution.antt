-- ===== src/Applications/Resolution.antt =====
-- app/applications/resolver.py AnswerResolver.resolve and get_stories.
use job_ping.Base.{
  ℕ, Bool, true, false, not, ◌||◌, Option, none, some, List, [], ◌∷◌, ◌++◌, map, length, keep, Text,
  codes, is_space, is_empty, contains, ltb, if◌then◌else◌, ◌==◌, elem, Result, ok, err, nat_eq, any,
  list_eq, ◌&&◌,
}
use job_ping.Applications.Resolver.{
  AnswerEntry, is_protected_category, Category, Resolver, category_in, fact_value,
  structured_answer, aliases_table,
}

-- `text.split()`
unfoldable pub words_from : Text → Text → List Text
words_from word [] = if is_empty word then [] else word ∷ []
words_from word (c ∷ s) =
    (if is_space c && not (is_empty word) then word ∷ [] else [])
    ++ words_from (if is_space c then [] else word ++ (c ∷ [])) s

-- A pattern stands in the question, or all its words do.
unfoldable pub pattern_fits : (Text → Text) → Text → Text → Bool
unfolding words_from
pattern_fits normalize q pattern =
    contains (normalize pattern) q
    || not (any (λ w. not (elem w (words_from [] q))) (words_from [] (normalize pattern)))

unfoldable pub bank_answer : (Text → Text) → Text → List AnswerEntry → Option Text
unfolding pattern_fits
bank_answer normalize q [] = none
bank_answer normalize q (e ∷ es) =
    let rest = bank_answer normalize q es in
    if any (pattern_fits normalize q) e.patterns then some e.reply else rest

-- `text.replace(old, new)` for single characters
unfoldable pub replace_char : ℕ → ℕ → Text → Text
replace_char old new s = map (λ c. if c == old then new else c) s

abbrev pub protected_terms : List Text
protected_terms =
    codes "citizenship" ∷ codes "security clearance" ∷ codes "criminal history" ∷ codes "visa" ∷ []

unfoldable pub is_protected : Resolver → Option Category → Text → Bool
unfolding is_protected_category replace_char
is_protected r category q =
    is_protected_category category
    || any (λ phrase. contains (replace_char b'_' b' ' phrase) q) r.never_invent
    || any (λ term. contains term q) protected_terms

-- The key of a category.
unfoldable pub category_key : Category → Text
category_key Category.first_name = codes "first_name"
category_key Category.last_name = codes "last_name"
category_key Category.email = codes "email"
category_key Category.phone = codes "phone"
category_key Category.location = codes "location"
category_key Category.school = codes "school"
category_key Category.degree = codes "degree"
category_key Category.major = codes "major"
category_key Category.linkedin = codes "linkedin"
category_key Category.github = codes "github"
category_key Category.portfolio = codes "portfolio"
category_key Category.work_authorization = codes "work_authorization"
category_key Category.sponsorship = codes "sponsorship"
category_key Category.relocate = codes "relocate"
category_key Category.graduation_date = codes "graduation_date"
category_key Category.gpa = codes "gpa"

unfoldable pub key_of : Option Category → Text → Text
unfolding category_key replace_char
key_of none q = replace_char b' ' b'_' q
key_of (some c) q = category_key c

unfoldable pub allows_generation : Resolver → Option Category → Text → Bool
unfolding key_of replace_char
allows_generation r category q =
    elem (key_of category q) r.generation_phrases
    || any (λ phrase. contains (replace_char b'_' b' ' phrase) q) r.generation_phrases

pub data AnswerSource : Type 0 where
  candidate_profile : AnswerSource
  answer_bank : AnswerSource

pub record AnswerResolution : Type 0 where
  pub answer : Option (AnswerSource × Text)
  pub generation_allowed : Bool
  pub relevant_stories : List Text
  pub requires_review : Bool

unfoldable pub matched_by : AnswerSource → Text → AnswerResolution
matched_by source reply = record {
  answer = some (source, reply);
  generation_allowed = false;
  relevant_stories = [];
  requires_review = false;
}

-- What is left where no answer is known: review, or a draft. The ids of the stories are sorted, as they are stored.
unfoldable pub unmatched : Resolver → Option Category → Text → AnswerResolution
unfolding is_protected allows_generation
unmatched r category q =
    if is_protected r category q
    then record {
      answer = none;
      generation_allowed = false;
      relevant_stories = [];
      requires_review = true;
    }
    else record {
      answer = none;
      generation_allowed = allows_generation r category q;
      relevant_stories = if allows_generation r category q then r.stories else [];
      requires_review = not (allows_generation r category q);
    }

unfoldable pub first_answer :
    Option Text → Option Text → Option Text → AnswerResolution → AnswerResolution
unfolding matched_by
first_answer (some a) b c rest = matched_by candidate_profile a
first_answer none (some b) c rest = matched_by answer_bank b
first_answer none none (some c) rest = matched_by answer_bank c
first_answer none none none rest = rest

unfoldable pub resolve_normalized : (Text → Text) → Resolver → Text → AnswerResolution
unfolding category_in fact_value structured_answer bank_answer unmatched first_answer
resolve_normalized normalize r q =
    let category = category_in aliases_table q in
    first_answer (fact_value r category) (structured_answer r category)
      (bank_answer normalize q r.application_answers) (unmatched r category q)

unfoldable pub resolve : (Text → Text) → Resolver → Text → AnswerResolution
unfolding resolve_normalized
resolve normalize r question = resolve_normalized normalize r (normalize question)

-- `sorted(set(selected))`, in the order of the stored ids, of those that are stored.
unfoldable pub stored_stories : List Text → List Text → List Text
stored_stories stories selected = keep (λ s. elem s selected) stories

pub data StoryError : Type 0 where
  ids_and_question : StoryError
  too_many : StoryError

unfoldable pub bounded_stories : Resolver → List Text → Result StoryError (List Text)
unfolding stored_stories
bounded_stories r selected =
    if ltb 20 (length selected) then err too_many else ok (stored_stories r.stories selected)

unfoldable pub stories_for : AnswerResolution → List Text
stories_for a = if a.generation_allowed then a.relevant_stories else []

-- get_stories, of ids or of a question.
unfoldable pub get_stories :
    (Text → Text) → Resolver → Option (List Text) → Option Text → Result StoryError (List Text)
unfolding bounded_stories stories_for resolve
get_stories normalize r (some ids) (some q) = err ids_and_question
get_stories normalize r (some ids) none = bounded_stories r ids
get_stories normalize r none (some q) = bounded_stories r (stories_for (resolve normalize r q))
get_stories normalize r none none = bounded_stories r []
