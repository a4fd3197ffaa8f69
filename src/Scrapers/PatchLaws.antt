-- ===== src/Scrapers/PatchLaws.antt =====
-- That app/scrapers/git_patch_parser.py reads back the changes that a patch is written of.
use mathlib.Core.List.{append_assoc, append-nil}
use job_ping.Base.{
  ℕ, ◌≡◌, refl, sym, ap, ◌∙◌, false, some, List, [], ◌∷◌, ◌++◌, map, arith, All, Text, ◌==◌, nat_eq,
}
use job_ping.Scrapers.PatchParser.{
  ChangedLine, ChangeKind, is_line_break, is_file_header, lines_from, change_of, changes_of, parse,
}

-- A line of a patch: context or the head of a hunk, which start with another character, or a change.
pub data PatchLine : Type 0 where
  other_line : ℕ → Text → PatchLine
  changed_line : ChangedLine → PatchLine

unfoldable pub sign_of : ChangeKind → ℕ
sign_of ChangeKind.added = b'+'
sign_of ChangeKind.removed = b'-'

unfoldable pub text_of : PatchLine → Text
unfolding sign_of
text_of (other_line c s) = c ∷ s
text_of (changed_line l) = sign_of l.change ∷ l.content

unfoldable pub written : List PatchLine → Text
unfolding text_of
written [] = []
written (l ∷ ls) = text_of l ++ (10 ∷ written ls)

unfoldable pub changes_in : List PatchLine → List ChangedLine
changes_in [] = []
changes_in (other_line c s ∷ ls) = changes_in ls
changes_in (changed_line l ∷ ls) = l ∷ changes_in ls

abbrev pub IsOneLine : Text → Type 0
IsOneLine s = All (λ (c : ℕ). is_line_break c ≡ false) s

-- It is on one line, starts with the character of its kind, and does not look like the header of a file.
abbrev pub IsWellFormed : PatchLine → Type 0
IsWellFormed (other_line c s) = IsOneLine (c ∷ s) × ((c == b'+') ≡ false) × ((c == b'-') ≡ false)
IsWellFormed (changed_line l) =
    IsOneLine l.content × (is_file_header (sign_of l.change ∷ l.content) ≡ false)

break_is_not_10 : (c : ℕ) → is_line_break c ≡ false → ((c == 10) ≡ false) × ((c == 13) ≡ false)
unfolding is_line_break
break_is_not_10 c h = (ground arith, ground arith)

lines_from-line :
    (cur s rest : Text)
    → IsOneLine s
    → lines_from false cur (s ++ (10 ∷ rest)) ≡ (cur ++ s) ∷ lines_from false [] rest
unfolding lines_from
lines_from-line cur [] rest h =
    ap (λ (t : Text). t ∷ lines_from false [] rest) (sym (append-nil cur))
lines_from-line cur (c ∷ s) rest h =
    let k = break_is_not_10 c h.0 in
    rw (h.0, k.1)
      (lines_from-line (cur ++ (c ∷ [])) s rest h.1
        ∙ ap (λ (t : Text). t ∷ lines_from false [] rest) (append_assoc cur (c ∷ []) s))

text_of-IsOneLine : (l : PatchLine) → IsWellFormed l → IsOneLine (text_of l)
unfolding text_of sign_of is_line_break
text_of-IsOneLine (other_line c s) h = h.0
text_of-IsOneLine (changed_line l) h = (sign_is_no_break l.change, h.0)
  where
    sign_is_no_break : (k : ChangeKind) → is_line_break (sign_of k) ≡ false
    sign_is_no_break ChangeKind.added = refl
    sign_is_no_break ChangeKind.removed = refl

lines_from-written :
    (ls : List PatchLine) → All IsWellFormed ls → lines_from false [] (written ls) ≡ map text_of ls
unfolding written lines_from
lines_from-written [] h = refl
lines_from-written (l ∷ ls) h =
    lines_from-line [] (text_of l) (written ls) (text_of-IsOneLine l h.0)
    ∙ ap (λ (ts : List Text). text_of l ∷ ts) (lines_from-written ls h.1)

header_sign :
    (c : ℕ) (s : Text) → (c == b'+') ≡ false → (c == b'-') ≡ false → is_file_header (c ∷ s) ≡ false
unfolding is_file_header
header_sign c [] h k = refl
header_sign c (a ∷ []) h k = refl
header_sign c (a ∷ b ∷ []) h k = refl
header_sign c (a ∷ b ∷ d ∷ s) h k = ground arith

change_of-sign :
    (k : ChangeKind) (s : Text)
    → change_of (sign_of k ∷ s) ≡ record { change = k; content = s } ∷ []
unfolding change_of sign_of
change_of-sign ChangeKind.added s = refl
change_of-sign ChangeKind.removed s = refl

changes_of-texts :
    (ls : List PatchLine) → All IsWellFormed ls → changes_of (map text_of ls) ≡ changes_in ls
unfolding changes_of changes_in text_of change_of
changes_of-texts [] h = refl
changes_of-texts (other_line c s ∷ ls) h =
    ground (arith, header_sign c s h.0.1 h.0.2, changes_of-texts ls h.1)
changes_of-texts (changed_line l ∷ ls) h =
    ground (arith, change_of-sign l.change l.content, changes_of-texts ls h.1)

-- Of a patch whose lines hold no line break, whose changes do not look like the header of a file and whose other lines
-- start with neither + nor -, parse gives the changes, with their kinds and contents and in their order.
pub parse-written :
    (ls : List PatchLine) → All IsWellFormed ls → parse (some (written ls)) ≡ changes_in ls
unfolding parse
parse-written ls h = ap changes_of (lines_from-written ls h) ∙ changes_of-texts ls h
