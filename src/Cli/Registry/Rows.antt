-- ===== src/Cli/Registry/Rows.antt =====
-- The rows of the registry: the first row of a name, and what the operations do to the list.
use mathlib.Core.Path.{subst}
use mathlib.Core.Option.{some-injective}
use job_squire.Base.{
  ◌≤◌, true, false, ◌≡◌, ◌≢◌, refl, ◌∙◌, inl, inr, none, some, List, [], ◌∷◌, ◌++◌, Text, length,
  ◌==◌, ==_iff, list_eq, nat_eq, if◌then◌else◌, arith, Bool-cases, Option-cases,
}
use job_squire.Cli.Registry.{
  Instance, Change, mode, runtime, data_dir, app_port, mcp_port, cookie_name, public_url, created,
  another, find, is_taken, set_field, set_fields, update_rows, without,
}

pub find-last :
    (n : Text) (rows : List Instance) (new : Instance)
    → is_taken new.name rows ≡ false
    → find n (rows ++ new ∷ []) ≡ (if new.name == n then some new else find n rows)
unfolding find is_taken
find-last n [] new h = refl
find-last n (i ∷ rows) new h = ground (arith, find-last n rows new)

pub set_field_name : (c : Change) (i : Instance) → (set_field c i).name ≡ i.name
unfolding set_field
set_field_name (mode v) i = refl
set_field_name (runtime v) i = refl
set_field_name (data_dir v) i = refl
set_field_name (app_port v) i = refl
set_field_name (mcp_port v) i = refl
set_field_name (cookie_name v) i = refl
set_field_name (public_url v) i = refl
set_field_name (created v) i = refl
set_field_name (another v) i = refl

pub set_fields_name : (changes : List Change) (i : Instance) → (set_fields changes i).name ≡ i.name
unfolding set_fields
set_fields_name [] i = refl
set_fields_name (c ∷ changes) i = set_fields_name changes (set_field c i) ∙ set_field_name c i

pub find-without :
    (n m : Text) (rows : List Instance)
    → find m (without n rows) ≡ (if n == m then none else find m rows)
unfolding find without
find-without n m [] = ground arith
find-without n m (i ∷ rows) = ground (arith, find-without n m rows)

-- The rows after an update of the row `n`, with the updated row, seen from a name `m`.
abbrev pub Updated : Text → Text → List Instance → List Instance × Instance → Type 0
Updated n m rows x = (find m x.0 ≡ (if n == m then some x.1 else find m rows)) × (x.1.name ≡ n)

pub Updated-first :
    (n m : Text) (changes : List Change) (k : Instance) (rows : List Instance)
    → (k.name == n) ≡ true
    → Updated n m (k ∷ rows) (set_fields changes k ∷ rows, set_fields changes k)
unfolding find
Updated-first n m changes k rows h =
    let same : k.name ≡ n = (==_iff k.name n).0 h in
    let name : (set_fields changes k).name ≡ n = set_fields_name changes k ∙ same in
    (simp (name, same) (elim (Bool-cases (n == m)) [ inl g ↦ simp g | inr g ↦ simp g ]), name)

pub Updated-later :
    (n m : Text) (changes : List Change) (k : Instance) (rows : List Instance)
    (y : List Instance × Instance)
    → (k.name == n) ≡ false
    → Updated n m rows y
    → Updated n m (k ∷ rows) (k ∷ y.0, y.1)
unfolding find
Updated-later n m changes k rows y h u = (ground (arith, u.0), u.1)

pub update_rows-find :
    (n m : Text) (changes : List Change) (rows : List Instance) (x : List Instance × Instance)
    → update_rows n changes rows ≡ some x
    → Updated n m rows x
unfolding update_rows find
update_rows-find n m changes [] x e = absurd (cc)
update_rows-find n m changes (k ∷ rows) x e = elim (Bool-cases (k.name == n)) [
  | inl h ↦
      subst (Updated n m (k ∷ rows)) (some-injective _ x (simp h at e))
        (Updated-first n m changes k rows h)
  | inr h ↦ elim (Option-cases (update_rows n changes rows)) [
    | inl o ↦ absurd (cc (simp (h, o) at e))
    | inr (y, o) ↦
        subst (Updated n m (k ∷ rows)) (some-injective _ x (simp (h, o) at e))
          (Updated-later n m changes k rows y h (update_rows-find n m changes rows y o))
  ]
]

pub length-without : (n : Text) (rows : List Instance) → length (without n rows) ≤ length rows
unfolding without
length-without n [] = omega arith
length-without n (i ∷ rows) = ground (arith, length-without n rows)

pub without-absent : (n : Text) (rows : List Instance) → find n rows ≡ none → without n rows ≡ rows
unfolding find without
without-absent n [] h = refl
without-absent n (i ∷ rows) h = ground (arith, without-absent n rows)

pub without-present :
    (n : Text) (rows : List Instance) (k : Instance)
    → find n rows ≡ some k
    → (length (without n rows) == length rows) ≡ false
unfolding find without
without-present n [] k h = absurd (cc)
without-present n (i ∷ rows) k h = ground (arith, without-present n rows k, length-without n rows)

pub is_taken-find : (n : Text) (rows : List Instance) → is_taken n rows ≡ true → find n rows ≢ none
unfolding is_taken find
is_taken-find n [] h e = absurd (cc)
is_taken-find n (i ∷ rows) h e = ground (arith, is_taken-find n rows)

pub find-is_taken : (n : Text) (rows : List Instance) → is_taken n rows ≡ false → find n rows ≡ none
unfolding is_taken find
find-is_taken n [] h = refl
find-is_taken n (i ∷ rows) h = ground (arith, find-is_taken n rows)
