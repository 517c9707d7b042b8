-- ===== src/Cli/Dotenv/Breaks.antt =====
-- The lines of a file of ops/dotenv.py have no line break, and joined they are read as they were.
use job_squire.Base.{
  ℕ, false, ◌≡◌, refl, ap, ◌∙◌, inl, inr, Option, none, some, List, [], ◌∷◌, ◌++◌, Text, strip,
  starts_with, list_eq, nat_eq, All, Bool-cases,
}
use job_squire.Cli.Dotenv.{is_break, onto_line, split_lines, join_lines, lines_of, set_lines}

abbrev pub Unbroken : Text → Type 0
Unbroken l = All (λ c. is_break c ≡ false) l

split_lines-line : (l s : Text) → Unbroken l → split_lines (l ++ 10 ∷ s) ≡ l ∷ split_lines s
unfolding split_lines is_break onto_line nat_eq
split_lines-line [] s a = refl
split_lines-line (c ∷ l) s a = rw (a.0, split_lines-line l s a.1, split_lines) refl

pub split_lines-join_lines : (ls : List Text) → All Unbroken ls → split_lines (join_lines ls) ≡ ls
unfolding join_lines split_lines
split_lines-join_lines [] a = refl
split_lines-join_lines (l ∷ ls) a =
    split_lines-line l (join_lines ls) a.0 ∙ ap (λ t. l ∷ t) (split_lines-join_lines ls a.1)

onto_line-Unbroken :
    (c : ℕ) (ls : List Text) → is_break c ≡ false → All Unbroken ls → All Unbroken (onto_line c ls)
unfolding onto_line
onto_line-Unbroken c [] e a = ((e, tt), tt)
onto_line-Unbroken c (l ∷ ls) e a = ((e, a.0), a.1)

split_lines-Unbroken : (s : Text) → All Unbroken (split_lines s)
unfolding split_lines
split_lines-Unbroken [] = tt
split_lines-Unbroken (c ∷ s) = elim (Bool-cases (is_break c)) [
  | inl g ↦ rw (g, split_lines) (tt, split_lines-Unbroken s)
  | inr g ↦ rw (g, split_lines) (onto_line-Unbroken c (split_lines s) g (split_lines-Unbroken s))
]

pub lines_of-Unbroken : (file : Option Text) → All Unbroken (lines_of file)
unfolding lines_of
lines_of-Unbroken none = tt
lines_of-Unbroken (some text) = split_lines-Unbroken text

pub set_lines-Unbroken :
    (key value : Text) (ls : List Text)
    → Unbroken (key ++ b'=' ∷ value)
    → All Unbroken ls
    → All Unbroken (set_lines key value ls)
unfolding set_lines
set_lines-Unbroken key value [] n a = (n, tt)
set_lines-Unbroken key value (l ∷ ls) n a =
    elim (Bool-cases (starts_with (strip l) (key ++ b'=' ∷ []))) [
      | inl g ↦ rw (g, set_lines) (n, a.1)
      | inr g ↦ rw (g, set_lines) (a.0, set_lines-Unbroken key value ls n a.1)
    ]
