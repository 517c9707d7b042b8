-- ===== src/Cli/Dotenv.antt =====
-- job_squire_cli/job_squire_cli/ops/dotenv.py: reading and setting one line of a file of `KEY=value` lines. A file is
-- its text with the line ends of the platform read as line feeds, or missing.
pub mod Breaks
pub mod Lines
use job_squire.Base.{
  ℕ, Bool, true, false, not, ◌&&◌, ◌||◌, Option, none, some, List, [], ◌∷◌, ◌++◌, Text, nonempty,
  strip, before, starts_with, contains, ◌==◌, list_eq, nat_eq, if◌then◌else◌,
}
use job_squire.Base.Dict.{Dict, lookup, insert}

-- A line boundary of `str.splitlines`.
unfoldable pub is_break : ℕ → Bool
is_break c = contains (10 ∷ 11 ∷ 12 ∷ 13 ∷ 28 ∷ 29 ∷ 30 ∷ 133 ∷ 8232 ∷ 8233 ∷ []) c

unfoldable pub onto_line : ℕ → List Text → List Text
onto_line c [] = (c ∷ []) ∷ []
onto_line c (l ∷ ls) = (c ∷ l) ∷ ls

-- `text.splitlines()`
unfoldable pub split_lines : Text → List Text
split_lines [] = []
split_lines (c ∷ s) = let rest = split_lines s in if is_break c then [] ∷ rest else onto_line c rest

-- `"\n".join(lines) + "\n"` of at least one line.
unfoldable pub join_lines : List Text → Text
join_lines [] = []
join_lines (l ∷ ls) = l ++ 10 ∷ join_lines ls

-- `s.partition(c)[2]`
unfoldable pub behind_first : ℕ → Text → Text
behind_first c [] = []
behind_first c (d ∷ s) = if d == c then s else behind_first c s

-- The key and the value of a line that was stripped.
unfoldable pub entry_of : Text → Option (Text × Text)
entry_of stripped =
    if not (nonempty stripped) || starts_with stripped (b'#' ∷ []) || not (contains stripped b'=')
    then none
    else some (strip (before b'=' stripped), strip (behind_first b'=' stripped))

unfoldable pub put : Option (Text × Text) → Dict Text Text → Dict Text Text
put none d = d
put (some (k, v)) d = insert k v d

-- The loop of `parse`.
unfoldable pub parse_lines : List Text → Dict Text Text → Dict Text Text
parse_lines [] d = d
parse_lines (l ∷ ls) d = parse_lines ls (put (entry_of (strip l)) d)

-- `path.read_text().splitlines() if path.exists() else []`
unfoldable pub lines_of : Option Text → List Text
lines_of none = []
lines_of (some text) = split_lines text

unfoldable pub parse : Option Text → Dict Text Text
parse file = parse_lines (lines_of file) []

-- `get` with the default `None`.
unfoldable pub get_value : Option Text → Text → Option Text
get_value file key = lookup key (parse file)

-- The first line that begins with the key is replaced, or the line is appended.
unfoldable pub set_lines : Text → Text → List Text → List Text
set_lines key value [] = (key ++ b'=' ∷ value) ∷ []
set_lines key value (l ∷ ls) =
    let rest = set_lines key value ls in
    if starts_with (strip l) (key ++ b'=' ∷ []) then (key ++ b'=' ∷ value) ∷ ls else l ∷ rest

-- `set_line`, with the file that it writes.
unfoldable pub set_line : Option Text → Text → Text → Option Text
set_line file key value = some (join_lines (set_lines key value (lines_of file)))
