-- ===== src/Applications/Resolver.antt =====
-- app/applications/resolver.py: answers to the questions of a form, from facts and a bank of answers. A question and
-- the phrases of the configuration are normalized by normalize_question, which is an argument: it folds case and
-- takes punctuation away.
use job_ping.Base.{
  Bool, true, false, ◌||◌, Option, none, some, List, [], ◌∷◌, Text, codes, contains, if◌then◌else◌,
  ◌==◌, nat_eq, any, list_eq,
}

pub data Category : Type 0 where
  first_name : Category
  last_name : Category
  email : Category
  phone : Category
  location : Category
  school : Category
  degree : Category
  major : Category
  linkedin : Category
  github : Category
  portfolio : Category
  work_authorization : Category
  sponsorship : Category
  relocate : Category
  graduation_date : Category
  gpa : Category

-- ALIASES, in its order, with the words that normalize_question leaves as they are.
abbrev pub aliases_table : List (Category × List Text)
aliases_table =
    (Category.first_name, codes "first name" ∷ codes "given name" ∷ codes "legal first name" ∷ [])
    ∷ (
      Category.last_name,
      codes "last name" ∷ codes "surname" ∷ codes "last name" ∷ codes "legal last name" ∷ [],
    )
    ∷ (Category.email, codes "email" ∷ codes "email address" ∷ codes "e mail" ∷ [])
    ∷ (
      Category.phone,
      codes "phone" ∷ codes "phone number" ∷ codes "telephone" ∷ codes "mobile number" ∷ [],
    )
    ∷ (
      Category.location,
      codes "location" ∷ codes "current location" ∷ codes "city" ∷ codes "where do you live" ∷ [],
    )
    ∷ (
      Category.school,
      codes "school" ∷ codes "university" ∷ codes "college" ∷ codes "educational institution" ∷ [],
    )
    ∷ (Category.degree, codes "degree" ∷ codes "degree type" ∷ [])
    ∷ (Category.major, codes "major" ∷ codes "field of study" ∷ codes "course of study" ∷ [])
    ∷ (Category.linkedin, codes "linkedin" ∷ codes "linkedin profile" ∷ codes "linkedin url" ∷ [])
    ∷ (Category.github, codes "github" ∷ codes "github profile" ∷ codes "github url" ∷ [])
    ∷ (
      Category.portfolio,
      codes "portfolio" ∷ codes "portfolio url" ∷ codes "personal website" ∷ [],
    )
    ∷ (
      Category.work_authorization,
      codes "authorized to work"
          ∷ codes "legally authorized to work"
          ∷ codes "authorization to work"
          ∷ codes "work authorization"
          ∷ [],
    )
    ∷ (
      Category.sponsorship,
      codes "require sponsorship"
          ∷ codes "need sponsorship"
          ∷ codes "future sponsorship"
          ∷ codes "visa sponsorship"
          ∷ codes "sponsorship"
          ∷ [],
    )
    ∷ (
      Category.relocate,
      codes "relocate" ∷ codes "willing to relocate" ∷ codes "open to relocation" ∷ [],
    )
    ∷ (
      Category.graduation_date,
      codes "graduation date" ∷ codes "expected graduation" ∷ codes "graduation month" ∷ [],
    )
    ∷ (Category.gpa, codes "gpa" ∷ codes "grade point average" ∷ [])
    ∷ []

-- The keys of ALIASES among PROTECTED_CATEGORIES.
unfoldable pub is_protected_category : Option Category → Bool
is_protected_category none = false
is_protected_category (some c) = elim c [
  | Category.work_authorization ↦ true
  | Category.sponsorship ↦ true
  | Category.gpa ↦ true
  | Category.graduation_date ↦ true
  | other ↦ false
]

-- _category: the first entry with an alias in the question.
unfoldable pub category_in : List (Category × List Text) → Text → Option Category
category_in [] q = none
category_in ((c, aliases) ∷ rest) q =
    let later = category_in rest q in
    if any (λ alias. alias == q || contains alias q) aliases then some c else later

-- CandidateProfile, as _fact_values reads it.
pub record Profile : Type 0 where
  pub given : Text
  pub last : Text
  pub mail : Text
  pub number : Text
  pub place : Text
  pub attended : Text
  pub title : Text
  pub field : Text
  pub graduation : Text
  pub average : Option Text
  pub linkedin_url : Option Text
  pub github_url : Option Text
  pub portfolio_url : Option Text
  pub authorized_us : Bool
  pub requires_sponsorship : Bool

unfoldable pub yes_or_no : Bool → Text
yes_or_no true = codes "Yes"
yes_or_no false = codes "No"

unfoldable pub fact_of : Profile → Category → Option Text
unfolding yes_or_no
fact_of p Category.first_name = some p.given
fact_of p Category.last_name = some p.last
fact_of p Category.email = some p.mail
fact_of p Category.phone = some p.number
fact_of p Category.location = some p.place
fact_of p Category.school = some p.attended
fact_of p Category.degree = some p.title
fact_of p Category.major = some p.field
fact_of p Category.graduation_date = some p.graduation
fact_of p Category.gpa = p.average
fact_of p Category.linkedin = p.linkedin_url
fact_of p Category.github = p.github_url
fact_of p Category.portfolio = p.portfolio_url
fact_of p Category.work_authorization = some (yes_or_no p.authorized_us)
fact_of p Category.sponsorship = some (yes_or_no p.requires_sponsorship)
fact_of p Category.relocate = none

pub record AnswerEntry : Type 0 where
  pub patterns : List Text
  pub reply : Text

-- The answer bank, the stories by their ids, and the two sets of phrases, which are normalized.
pub record Resolver : Type 0 where
  pub profile : Option Profile
  pub authorized_answer : Option Text
  pub sponsorship_answer : Option Text
  pub relocate_answer : Option Text
  pub application_answers : List AnswerEntry
  pub stories : List Text
  pub generation_phrases : List Text
  pub never_invent : List Text

unfoldable pub fact_value : Resolver → Option Category → Option Text
unfolding fact_of
fact_value r none = none
fact_value r (some c) = elim r.profile [ none ↦ none | some p ↦ fact_of p c ]

-- structured_answers
unfoldable pub structured_answer : Resolver → Option Category → Option Text
structured_answer r none = none
structured_answer r (some c) = elim c [
  | Category.work_authorization ↦ r.authorized_answer
  | Category.sponsorship ↦ r.sponsorship_answer
  | Category.relocate ↦ r.relocate_answer
  | other ↦ none
]
