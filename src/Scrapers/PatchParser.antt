-- ===== src/Scrapers/PatchParser.antt =====
-- app/scrapers/git_patch_parser.py: the changed lines of a unified diff.
use job_ping.Base.{
  ℕ, Bool, true, false, not, ◌&&◌, ◌||◌, Option, none, some, List, [], ◌∷◌, ◌++◌, Text, codes,
  is_space, is_empty, leb, if◌then◌else◌, ◌==◌, elem, nat_eq, list_eq,
}

pub data ChangeKind : Type 0 where
  added : ChangeKind
  removed : ChangeKind

pub record ChangedLine : Type 0 where
  pub change : ChangeKind
  pub content : Text

-- The line breaks of str.splitlines.
unfoldable pub is_line_break : ℕ → Bool
is_line_break c = leb 10 c && leb c 13 || leb 28 c && leb c 30 || c == 133 || c == 8232 || c == 8233

-- str.splitlines, after a carriage return or not, with what the line has so far.
unfoldable pub lines_from : Bool → Text → Text → List Text
unfolding is_line_break
lines_from after_cr line [] = if is_empty line then [] else line ∷ []
lines_from after_cr line (c ∷ s) =
    let joined = after_cr && c == 10 in
    let ends = is_line_break c && not joined in
    (if ends then line ∷ [] else [])
    ++ lines_from (c == 13) (if ends || joined then [] else line ++ (c ∷ [])) s

-- `^(?:\+\+\+|---)\s`
unfoldable pub is_file_header : Text → Bool
is_file_header (a ∷ b ∷ c ∷ d ∷ s) =
    (a == b'+' && b == b'+' && c == b'+' || a == b'-' && b == b'-' && c == b'-') && is_space d
is_file_header s = false

-- The change of a line that is no header.
unfoldable pub change_of : Text → List ChangedLine
change_of [] = []
change_of (c ∷ s) =
    if c == b'+'
    then record { change = added; content = s } ∷ []
    else if c == b'-'
    then record { change = removed; content = s } ∷ []
    else []

unfoldable pub changes_of : List Text → List ChangedLine
unfolding is_file_header change_of
changes_of [] = []
changes_of (l ∷ ls) = (if is_file_header l then [] else change_of l) ++ changes_of ls

-- GitPatchParser.parse
unfoldable pub parse : Option Text → List ChangedLine
unfolding lines_from changes_of
parse none = []
parse (some patch) = changes_of (lines_from false [] patch)

-- `filename.replace("\\", "/").rsplit("/", maxsplit=1)[-1]`
unfoldable pub last_part : Text → Text → Text
last_part part [] = part
last_part part (c ∷ s) = last_part (if c == b'/' || c == b'\\' then [] else part ++ (c ∷ [])) s

-- _is_target_readme, where casefold is an argument.
unfoldable pub is_target_readme : (Text → Text) → Text → Option (List Text) → Bool
unfolding last_part
is_target_readme casefold filename targets =
    elem (casefold (last_part [] filename)) (codes "readme.md" ∷ codes "readme.mdx" ∷ [])
    && elim targets [ none ↦ true | some names ↦ elem filename names ]

-- A file of a commit: its name, and its patch where there is one.
pub record GitHubFilePatch : Type 0 where
  pub filename : Text
  pub patch : Option Text

-- GitPatchParser.parse_files: the changes of each targeted file, in order.
unfoldable pub parse_files :
    (Text → Text) → List GitHubFilePatch → Option (List Text) → List (Text × List ChangedLine)
unfolding parse is_target_readme
parse_files casefold [] targets = []
parse_files casefold (f ∷ fs) targets =
    (if is_target_readme casefold f.filename targets then (f.filename, parse f.patch) ∷ [] else [])
    ++ parse_files casefold fs targets
