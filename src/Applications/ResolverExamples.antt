-- ===== src/Applications/ResolverExamples.antt =====
-- Runs of the answer resolver, on questions that are normalized already.
use job_ping.Base.{
  ◌≡◌, refl, true, false, none, some, [], ◌∷◌, Text, codes, contains, elem, ok, nat_eq, list_eq,
}
use job_ping.Applications.Resolver.{Profile, Resolver}
use job_ping.Applications.Resolution.{get_stories, resolve, candidate_profile}
use job_ping.Applications.ResolutionLaws.{IsSafe, category_of, resolve-IsSafe}

abbrev graduate : Profile
graduate = record {
  given = codes "Ada";
  last = codes "L";
  mail = codes "a@b.c";
  number = codes "1";
  place = codes "Boston";
  attended = codes "MIT";
  title = codes "BS";
  field = codes "CS";
  graduation = codes "2026";
  average = none;
  linkedin_url = none;
  github_url = none;
  portfolio_url = none;
  authorized_us = true;
  requires_sponsorship = false;
}

abbrev desk : Resolver
desk = record {
  profile = some graduate;
  authorized_answer = none;
  sponsorship_answer = none;
  relocate_answer = none;
  application_answers = [];
  stories = codes "s1" ∷ codes "s2" ∷ [];
  generation_phrases = codes "why_company" ∷ [];
  never_invent = codes "security_clearance" ∷ [];
}

abbrev as_is : Text → Text
as_is t = t

resolve-IsSafe_example :
    IsSafe desk (category_of as_is (codes "gpa")) (codes "gpa") (resolve as_is desk (codes "gpa"))
resolve-IsSafe_example = resolve-IsSafe as_is desk (codes "gpa")

given_stories :
    get_stories as_is desk none (some (codes "why company")) ≡ ok (codes "s1" ∷ codes "s2" ∷ [])
unfolding get_stories contains elem
given_stories = refl

-- An alias inside a word decides the category: an ethnicity is answered with the location.
ethnicity_is_a_city :
    (resolve as_is desk (codes "ethnicity")).answer ≡ some (candidate_profile, codes "Boston")
unfolding resolve contains
ethnicity_is_a_city = refl
