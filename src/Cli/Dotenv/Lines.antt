-- ===== src/Cli/Dotenv/Lines.antt =====
-- What `get` of ops/dotenv.py finds after `set_line`.
use job_squire.Base.{
  ℕ, true, false, ◌≡◌, ◌≢◌, append_assoc, refl, sym, ap, ◌∙◌, inl, inr, Option, none, some, List,
  [], ◌∷◌, ◌++◌, Text, nonempty, strip, lstrip, rstrip, is_space, before, starts_with, contains,
  ◌==◌, ==_iff, ==_refl, list_eq, nat_eq, if◌then◌else◌, All, arith, Bool-cases,
}
use job_squire.Base.Dict.{Dict, lookup, lookup-insert, lookup-nil}
use job_squire.Cli.Dotenv.{
  is_break, split_lines, join_lines, behind_first, entry_of, put, parse_lines, lines_of, parse,
  get_value, set_lines, set_line,
}
use job_squire.Cli.Dotenv.Breaks.{split_lines-join_lines, lines_of-Unbroken, set_lines-Unbroken}

-- The value that the last line of a key gives, or what was known before.
value_after : Text → Option (Text × Text) → Option Text → Option Text
value_after k none o = o
value_after k (some (j, v)) o = if k == j then some v else o

value_in : Text → List Text → Option Text → Option Text
value_in k [] o = o
value_in k (l ∷ ls) o = value_in k ls (value_after k (entry_of (strip l)) o)

lookup-put :
    (k : Text) (e : Option (Text × Text)) (d : Dict Text Text)
    → lookup k (put e d) ≡ value_after k e (lookup k d)
unfolding put value_after
lookup-put k none d = refl
lookup-put k (some (j, v)) d = lookup-insert k j v d

lookup-parse_lines :
    (k : Text) (ls : List Text) (d : Dict Text Text)
    → lookup k (parse_lines ls d) ≡ value_in k ls (lookup k d)
unfolding parse_lines value_in
lookup-parse_lines k [] d = refl
lookup-parse_lines k (l ∷ ls) d =
    lookup-parse_lines k ls (put (entry_of (strip l)) d)
    ∙ ap (value_in k ls) (lookup-put k (entry_of (strip l)) d)

-- A key that a line can have: it begins with a character that is neither white space nor `#`, and has no `=`, and no
-- white space at its end.
pub record IsKey (key : Text) : Type 0 where
  pub first : ℕ
  pub later : Text
  pub parts : key ≡ first ∷ later
  pub no_space : is_space first ≡ false
  pub no_comment : (first == b'#') ≡ false
  pub plain : All (λ c. (c == b'=') ≡ false) key
  pub stripped : strip key ≡ key

lstrip-key : (key rest : Text) → IsKey key → lstrip (key ++ rest) ≡ key ++ rest
unfolding lstrip
lstrip-key key rest i =
    ap (λ k. lstrip (k ++ rest)) i.parts
    ∙ (rw (i.no_space, lstrip) refl ∙ ap (λ k. k ++ rest) (sym i.parts))

comment-key : (key rest : Text) → IsKey key → starts_with (key ++ rest) (b'#' ∷ []) ≡ false
unfolding starts_with
comment-key key rest i =
    ap (λ k. starts_with (k ++ rest) (b'#' ∷ [])) i.parts ∙ rw (i.no_comment, starts_with) refl

before-append :
    (key rest : Text) → All (λ c. (c == b'=') ≡ false) key → before b'=' (key ++ b'=' ∷ rest) ≡ key
unfolding before nat_eq
before-append [] rest a = refl
before-append (c ∷ key) rest a = rw (a.0, before-append key rest a.1) refl

behind_first-append :
    (key rest : Text)
    → All (λ c. (c == b'=') ≡ false) key
    → behind_first b'=' (key ++ b'=' ∷ rest) ≡ rest
unfolding behind_first nat_eq
behind_first-append [] rest a = refl
behind_first-append (c ∷ key) rest a = rw (a.0, behind_first-append key rest a.1, behind_first) refl

contains-append : (key rest : Text) → contains (key ++ b'=' ∷ rest) b'=' ≡ true
unfolding nat_eq
contains-append [] rest = refl
contains-append (c ∷ key) rest = rw (contains-append key rest) (ground arith)

nonempty-append : (key rest : Text) → nonempty (key ++ b'=' ∷ rest) ≡ true
nonempty-append [] rest = refl
nonempty-append (c ∷ key) rest = refl

entry_of-line :
    (key rest : Text) → IsKey key → entry_of (key ++ b'=' ∷ rest) ≡ some (key, strip rest)
unfolding entry_of
entry_of-line key rest k =
    rw
      (
        nonempty-append key rest,
        comment-key key (b'=' ∷ rest) k,
        contains-append key rest,
        before-append key rest k.plain,
        k.stripped,
        behind_first-append key rest k.plain,
        entry_of,
      )
      refl

rstrip-line : (a v : Text) → rstrip (a ++ b'=' ∷ v) ≡ a ++ b'=' ∷ rstrip v
unfolding rstrip is_space nat_eq
rstrip-line [] v = refl
rstrip-line (c ∷ []) v = ground arith
rstrip-line (c ∷ d ∷ a) v = rw (rstrip-line (d ∷ a) v) (ground arith)

strip-line :
    (key value : Text)
    → IsKey key
    → rstrip value ≡ value
    → strip (key ++ b'=' ∷ value) ≡ key ++ b'=' ∷ value
unfolding strip
strip-line key value k e =
    ap rstrip (lstrip-key key (b'=' ∷ value) k)
    ∙ (rstrip-line key value ∙ ap (λ v. key ++ b'=' ∷ v) e)

starts_with-rest : (p s : Text) → starts_with s p ≡ true → (rest : Text) × (s ≡ p ++ rest)
unfolding starts_with
starts_with-rest [] s e = (s, refl)
starts_with-rest (c ∷ p) [] e = absurd (cc (e))
starts_with-rest (c ∷ p) (d ∷ s) e = elim (Bool-cases (d == c)) [
  | inr g ↦ absurd (cc (rw g at e))
  | inl g ↦
      let later = starts_with-rest p s (rw g at e) in
      (later.0, ap (λ x. x ∷ s) ((==_iff d c).0 g) ∙ ap (λ t. c ∷ t) later.1)
]

-- A line that begins with the key sets it.
entry_of-found :
    (key l : Text)
    → IsKey key
    → starts_with (strip l) (key ++ b'=' ∷ []) ≡ true
    → (v : Text) × (entry_of (strip l) ≡ some (key, v))
entry_of-found key l k e =
    let r = starts_with-rest (key ++ b'=' ∷ []) (strip l) e in
    (strip r.0, ap entry_of (r.1 ∙ append_assoc key (b'=' ∷ []) r.0) ∙ entry_of-line key r.0 k)

-- No line sets the key.
unfoldable pub Absent : Text → List Text → Type 0
Absent key [] = Unit
Absent key (l ∷ ls) = ((v : Text) → entry_of (strip l) ≢ some (key, v)) × Absent key ls

-- No line behind the first that begins with the key sets it.
unfoldable pub NotAgain : Text → List Text → Type 0
NotAgain key [] = Unit
NotAgain key (l ∷ ls) =
    if starts_with (strip l) (key ++ b'=' ∷ []) then Absent key ls else NotAgain key ls

value_after-Absent :
    (key : Text) (e : Option (Text × Text)) (o : Option Text)
    → ((v : Text) → e ≢ some (key, v))
    → value_after key e o ≡ o
unfolding value_after
value_after-Absent key none o n = refl
value_after-Absent key (some (j, v)) o n = elim (Bool-cases (key == j)) [
  | inl g ↦ absurd (n v (ap (λ k. some (k, v)) (sym ((==_iff key j).0 g))))
  | inr g ↦ rw g refl
]

value_in-Absent :
    (key : Text) (ls : List Text) (o : Option Text) → Absent key ls → value_in key ls o ≡ o
unfolding value_in Absent
value_in-Absent key [] o a = refl
value_in-Absent key (l ∷ ls) o a =
    ap (value_in key ls) (value_after-Absent key (entry_of (strip l)) o a.0)
    ∙ value_in-Absent key ls o a.1

value_after-same :
    (key v : Text) (e : Option (Text × Text)) (o : Option Text)
    → e ≡ some (key, v)
    → value_after key e o ≡ some v
unfolding value_after
value_after-same key v e o h = ap (λ x. value_after key x o) h ∙ rw (==_refl key) refl

value_after-other :
    (key k v : Text) (e : Option (Text × Text)) (o : Option Text)
    → e ≡ some (key, v)
    → (k == key) ≡ false
    → value_after k e o ≡ o
unfolding value_after
value_after-other key k v e o h n = ap (λ x. value_after k x o) h ∙ rw n refl

set_lines-key :
    (key value : Text) (ls : List Text) (o : Option Text)
    → entry_of (strip (key ++ b'=' ∷ value)) ≡ some (key, value)
    → NotAgain key ls
    → value_in key (set_lines key value ls) o ≡ some value
unfolding set_lines value_in value_after NotAgain
set_lines-key key value [] o e a = rw e (rw (==_refl key) refl)
set_lines-key key value (l ∷ ls) o e a =
    elim (Bool-cases (starts_with (strip l) (key ++ b'=' ∷ []))) [
      | inl g ↦
          rw (g, set_lines)
            (ap (value_in key ls)
                (value_after-same key value (entry_of (strip (key ++ b'=' ∷ value))) o e)
              ∙ value_in-Absent key ls (some value) (rw g at a))
      | inr g ↦
          rw (g, set_lines)
            (set_lines-key key value ls (value_after key (entry_of (strip l)) o) e (rw g at a))
    ]

set_lines-other :
    (key value k : Text) (ls : List Text) (o : Option Text)
    → IsKey key
    → entry_of (strip (key ++ b'=' ∷ value)) ≡ some (key, value)
    → (k == key) ≡ false
    → value_in k (set_lines key value ls) o ≡ value_in k ls o
unfolding set_lines value_in value_after
set_lines-other key value k [] o i e n = rw (e, n) refl
set_lines-other key value k (l ∷ ls) o i e n =
    elim (Bool-cases (starts_with (strip l) (key ++ b'=' ∷ []))) [
      | inl g ↦
          rw (g, set_lines)
            (let f = entry_of-found key l i g in
              ap (value_in k ls) (
                value_after-other key k value (entry_of (strip (key ++ b'=' ∷ value))) o e n
                ∙ sym (value_after-other key k f.0 (entry_of (strip l)) o f.1 n)))
      | inr g ↦
          rw (g, set_lines)
            (set_lines-other key value k ls (value_after k (entry_of (strip l)) o) i e n)
    ]

-- A key and a value that one line can hold, where no line behind the first one of the key sets it too: after the line
-- is set, the key has the value, and every other key has what it had.
pub set_line-get_value :
    (file : Option Text) (key value : Text)
    → IsKey key
    → All (λ c. is_break c ≡ false) (key ++ b'=' ∷ value)
    → rstrip value ≡ value
    → strip value ≡ value
    → NotAgain key (lines_of file)
    → (get_value (set_line file key value) key ≡ some value)
      × ((k : Text) → (k == key) ≡ false → get_value (set_line file key value) k ≡ get_value file k)
unfolding get_value parse set_line lines_of
set_line-get_value file key value i u r t a =
    let ls = lines_of file in
    let entry : entry_of (strip (key ++ b'=' ∷ value)) ≡ some (key, value) =
      ap entry_of (strip-line key value i r)
      ∙ (entry_of-line key value i ∙ ap (λ v. some (key, v)) t) in
    let read : split_lines (join_lines (set_lines key value ls)) ≡ set_lines key value ls =
      split_lines-join_lines (set_lines key value ls)
        (set_lines-Unbroken key value ls u (lines_of-Unbroken file)) in
    let looked : (k : Text)
        → lookup k (parse (set_line file key value)) ≡ value_in k (set_lines key value ls) none =
      λ k.
        ap (λ l. lookup k (parse_lines l [])) read
        ∙ (lookup-parse_lines k (set_lines key value ls) []
            ∙ ap (value_in k (set_lines key value ls)) (lookup-nil {V = Text} k)) in
    let before_it : (k : Text) → lookup k (parse file) ≡ value_in k ls none =
      λ k. lookup-parse_lines k ls [] ∙ ap (value_in k ls) (lookup-nil {V = Text} k) in
    (
      looked key ∙ set_lines-key key value ls none entry a,
      λ k n. looked k ∙ (set_lines-other key value k ls none i entry n ∙ sym (before_it k)),
    )
