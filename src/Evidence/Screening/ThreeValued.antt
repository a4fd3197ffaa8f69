-- ===== src/Evidence/Screening/ThreeValued.antt =====
-- Laws of three-valued conditions: what a WHERE or a CASE takes of them.
use job_ping.Base.{
  ◌≡◌, refl, ◌∙◌, Bool, true, false, not, ◌&&◌, ◌||◌, Option, none, some, List, [], ◌∷◌, ◌++◌,
  arith, is_empty,
}
use job_ping.Evidence.Screening.Sql.{holds, or_all, or3, and3}
use job_ping.Evidence.Screening.Findings.{Findings, ◌<+>◌}
use job_ping.Evidence.Screening.Conditions.{Conditions, ◌<&>◌}

pub holds-or3 : (a b : Option Bool) → holds (or3 a b) ≡ (holds a || holds b)
unfolding holds or3
holds-or3 (some true) b = refl
holds-or3 (some false) b = refl
holds-or3 none (some true) = refl
holds-or3 none (some false) = refl
holds-or3 none none = refl

pub holds-and3 : (a b : Option Bool) → holds (and3 a b) ≡ (holds a && holds b)
unfolding holds and3
holds-and3 (some true) b = refl
holds-and3 (some false) b = refl
holds-and3 none (some true) = refl
holds-and3 none (some false) = refl
holds-and3 none none = refl

pub or_all-append :
    (xs ys : List (Option Bool))
    → holds (or_all (xs ++ ys)) ≡ (holds (or_all xs) || holds (or_all ys))
unfolding or_all holds
or_all-append [] ys = refl
or_all-append (x ∷ xs) ys =
    ground (arith, holds-or3 x (or_all (xs ++ ys)), holds-or3 x (or_all xs), or_all-append xs ys)

pub is_empty-append {ℓ} :
    {A : Type ℓ} (xs ys : List A)
    → not (is_empty (xs ++ ys)) ≡ (not (is_empty xs) || not (is_empty ys))
is_empty-append [] ys = refl
is_empty-append (x ∷ xs) ys = refl

-- What evaluate finds and what the SQL conditions say agree.
pub record Tallies (f : Findings) (c : Conditions) : Type 0 where
  pub on_failure : not (is_empty f.fails) ≡ holds (or_all c.failures)
  pub on_review : not (is_empty f.reviews) ≡ holds (or_all c.doubts)

pub Tallies-<+> :
    (f g : Findings) (c d : Conditions) → Tallies f c → Tallies g d → Tallies (f <+> g) (c <&> d)
unfolding ◌<+>◌ ◌<&>◌
Tallies-<+> f g c d x y = record {
  on_failure =
      is_empty-append f.fails g.fails
      ∙ ground (arith, x.on_failure, y.on_failure, or_all-append c.failures d.failures);
  on_review =
      is_empty-append f.reviews g.reviews
      ∙ ground (arith, x.on_review, y.on_review, or_all-append c.doubts d.doubts);
}
