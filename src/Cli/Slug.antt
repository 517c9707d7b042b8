-- ===== src/Cli/Slug.antt =====
-- `sanitize_slug` of ops/registry.py. The proofs stand in the module below.
pub mod Shape
pub mod Fixed
use job_squire.Base.{
  ℕ, Bool, true, false, not, ◌&&◌, ◌||◌, Option, none, some, List, [], ◌∷◌, ◌++◌, Text, txt,
  nonempty, strip, lower, is_space, strip_chars, leb, ◌==◌, nat_eq, if◌then◌else◌,
}

abbrev pub hyphen : ℕ
hyphen = b'-'

-- `[\s_]`
unfoldable pub is_gap : ℕ → Bool
unfolding is_space nat_eq
is_gap c = is_space c || c == b'_'

-- `[a-z0-9-]`
unfoldable pub is_slug_char : ℕ → Bool
unfolding nat_eq
is_slug_char c = (leb 97 c && leb c 122) || (leb 48 c && leb c 57) || c == hyphen

-- `re.sub(r"[\s_]+", "-", s)`: a run of gaps becomes one hyphen. The flag tells whether the
-- character before was a gap.
unfoldable pub gaps_to_hyphens : Bool → Text → Text
gaps_to_hyphens inside [] = []
gaps_to_hyphens true (c ∷ s) = elim (is_gap c) [
  | true ↦ gaps_to_hyphens true s
  | false ↦ c ∷ gaps_to_hyphens false s
]
gaps_to_hyphens false (c ∷ s) = elim (is_gap c) [
  | true ↦ hyphen ∷ gaps_to_hyphens true s
  | false ↦ c ∷ gaps_to_hyphens false s
]

-- `re.sub(r"[^a-z0-9-]+", "", s)`
unfoldable pub drop_invalid : Text → Text
drop_invalid [] = []
drop_invalid (c ∷ s) = let rest = drop_invalid s in if is_slug_char c then c ∷ rest else rest

-- `re.sub(r"-{2,}", "-", s)`. The flag tells whether the character before was a hyphen.
unfoldable pub collapse : Bool → Text → Text
collapse after [] = []
collapse true (c ∷ s) = elim (c == hyphen) [ true ↦ collapse true s | false ↦ c ∷ collapse false s ]
collapse false (c ∷ s) = elim (c == hyphen) [
  | true ↦ c ∷ collapse true s
  | false ↦ c ∷ collapse false s
]

unfoldable pub clean : Text → Text
clean s = strip_chars (hyphen ∷ []) (collapse false (drop_invalid s))

-- `none` is an `InvalidNameError`.
unfoldable pub sanitize_slug : Text → Option Text
sanitize_slug raw =
    let slug = clean (gaps_to_hyphens false (lower (strip raw))) in
    if nonempty slug then some slug else none
