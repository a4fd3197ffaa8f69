-- ===== src/Scrapers/Examples.antt =====
-- Runs of the patch parser.
use job_ping.Base.{◌≡◌, refl, some, List, [], ◌∷◌, arith, All, codes, is_space, ℕ, ◌≤◌, true, none}
use job_ping.Scrapers.PatchLaws.{
  PatchLine, other_line, written, changed_line, sign_of, changes_in, IsWellFormed, parse-written,
}
use job_ping.Scrapers.PatchParser.{is_line_break, parse, is_file_header, ChangeKind}
use job_ping.Scrapers.DomainLimiter.{RateLimit, DomainBucket, is_slept, check_wanted, rounds}
use job_ping.Scrapers.DomainLimits.{passes_after_sleep}

abbrev small_patch : List PatchLine
small_patch =
    other_line b'@' (codes "@ -1 +1 @@")
    ∷ changed_line (record { change = ChangeKind.removed; content = codes "a" })
    ∷ changed_line (record { change = ChangeKind.added; content = codes "++b" })
    ∷ []

small_patch-IsWellFormed : All IsWellFormed small_patch
unfolding is_line_break is_file_header sign_of is_space
small_patch-IsWellFormed = ground arith

parse-written_example : parse (some (written small_patch)) ≡ changes_in small_patch
parse-written_example = parse-written small_patch small_patch-IsWellFormed

-- An added line that starts with two plus signs and a space is taken for the header of a file.
dropped : parse (some (codes "+++ b")) ≡ []
unfolding parse is_space
dropped = refl

-- Two parts a tick, ten at most; one part is left.
abbrev slow : RateLimit
slow = record { rate = 2; capacity = 10 }

abbrev drained_bucket : DomainBucket
drained_bucket = record { domain = codes "a.b"; parts = 1; updated_at = 100 }

has_slept : is_slept slow 8 101 104 drained_bucket ≡ true
unfolding is_slept
has_slept = refl

wanted_ok : check_wanted slow 8 ≡ none
unfolding check_wanted
wanted_ok = refl

passes_after_sleep_example :
    (t : ℕ) × (c : DomainBucket) × (rounds slow 8 (101 ∷ 104 ∷ []) drained_bucket ≡ some (t, c))
    × (t ≤ 104)
passes_after_sleep_example =
    passes_after_sleep slow 8 101 104 drained_bucket wanted_ok (omega arith) has_slept
