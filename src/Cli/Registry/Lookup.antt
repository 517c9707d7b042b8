-- ===== src/Cli/Registry/Lookup.antt =====
-- What `get_instance` finds after each operation of the registry.
use mathlib.Core.Path.{subst}
use job_squire.Base.{
  ℕ, Bool, true, false, ◌≡◌, ◌↔◌, ◌≢◌, refl, ap, sym, ◌∙◌, ◌⊎◌, inl, inr, Option, none, some, List,
  [], ◌∷◌, ◌++◌, Text, length, ◌==◌, ==_refl, list_eq, nat_eq, if◌then◌else◌, returns, raises,
  Bool-cases, Option-cases,
}
use job_squire.Cli.Slug.{sanitize_slug}
use job_squire.Cli.Registry.{
  Instance, File, missing, malformed, holds, unreadable, name_collision, registry_version,
  NewInstance, Change, load_registry, find, get_instance, is_taken, new_row, add_row, add_instance,
  are_known, update_rows, update_loaded, update_instance, without, remove_loaded, remove_instance,
}
use job_squire.Cli.Registry.Rows.{
  find-last, find-without, Updated, update_rows-find, without-absent, without-present,
  is_taken-find, find-is_taken,
}

-- The file and the record that an operation on the row `n` left, seen from a name `m`.
abbrev Found : Text → Option Instance → File × Instance → Type 0
Found m old x = (get_instance m x.0 ≡ (if x.1.name == m then returns (some x.1) else returns old))

pub Loaded-cases :
    (f : File)
    → (load_registry f ≡ raises unreadable)
      ⊎ ((l : ℕ × List Instance) × (load_registry f ≡ returns l))
unfolding load_registry
Loaded-cases missing = inr ((registry_version, []), refl)
Loaded-cases malformed = inl refl
Loaded-cases (holds v rows) = inr ((v, rows), refl)

loaded-get :
    (m : Text) (f : File) (v : ℕ) (rows : List Instance)
    → load_registry f ≡ returns (v, rows)
    → get_instance m f ≡ returns (find m rows)
unfolding get_instance
loaded-get m f v rows l = rw l refl

add_row-get :
    (today slug m : Text) (new : NewInstance) (v : ℕ) (rows : List Instance) (x : File × Instance)
    → add_row today slug new (v, rows) ≡ returns x
    → (x.1.name ≡ slug) × Found m (find m rows) x
unfolding add_row get_instance load_registry new_row
add_row-get today slug m new v rows x e = elim (Bool-cases (is_taken slug rows)) [
  | inl h ↦ absurd (cc (rw h at e))
  | inr h ↦
      let left : x ≡ (holds v (rows ++ new_row today slug new ∷ []), new_row today slug new) =
        cc (rw h at e) in
      subst (λ (y : File × Instance). (y.1.name ≡ slug) × Found m (find m rows) y) (sym left)
        (
          refl,
          (rw (find-last m rows (new_row today slug new) h)
              (elim (Bool-cases (slug == m)) [ inl g ↦ rw g | inr g ↦ rw g ])),
        )
]

update_loaded-get :
    (n m : Text) (changes : List Change) (v : ℕ) (rows : List Instance) (x : File × Instance)
    → update_loaded n changes (v, rows) ≡ returns x
    → (x.1.name ≡ n) × Found m (find m rows) x
unfolding get_instance load_registry update_loaded
update_loaded-get n m changes v rows x e = elim (Option-cases (update_rows n changes rows)) [
  | inl h ↦ absurd (cc (rw (h, update_loaded) at e))
  | inr (y, h) ↦
      let left : x ≡ (holds v y.0, y.1) = cc (rw (h, update_loaded) at e) in
      let found : Updated n m rows y = update_rows-find n m changes rows y h in
      subst (λ (y : File × Instance). (y.1.name ≡ n) × Found m (find m rows) y) (sym left)
        (
          found.1,
          (rw (found.0, found.1) (elim (Bool-cases (n == m)) [ inl g ↦ rw g | inr g ↦ rw g ])),
        )
]

-- Whenever an addition returns, its record is found under the slug of the name, which it has
-- as its name, and every other name gives what it gave before.
add_instance-get :
    (today m : Text) (new : NewInstance) (f : File) (x : File × Instance)
    → add_instance today new f ≡ returns x
    → (sanitize_slug new.name ≡ some x.1.name)
      × (get_instance m x.0 ≡ (if x.1.name == m then returns (some x.1) else get_instance m f))
unfolding add_instance
add_instance-get today m new f x e = elim (Option-cases (sanitize_slug new.name)) [
  | inl h ↦ absurd (cc (rw (h, add_instance) at e))
  | inr (slug, h) ↦ elim (Loaded-cases f) [
    | inl l ↦ absurd (cc (rw (h, l, add_instance) at e))
    | inr ((v, rows), l) ↦
        let got : (x.1.name ≡ slug) × Found m (find m rows) x =
          add_row-get today slug m new v rows x (rw (h, l, add_instance) at e) in
        (h ∙ ap some (sym got.0), rw (loaded-get m f v rows l) got.1)
  ]
]

-- Whenever an update of the name `n` returns, the record that it returned has this name and is found
-- under it, and every other name gives what it gave before.
update_instance-get :
    (n m : Text) (changes : List Change) (f : File) (x : File × Instance)
    → update_instance n changes f ≡ returns x
    → (x.1.name ≡ n)
      × (get_instance m x.0 ≡ (if x.1.name == m then returns (some x.1) else get_instance m f))
unfolding update_instance
update_instance-get n m changes f x e = elim (Bool-cases (are_known changes)) [
  | inr h ↦ absurd (cc (rw (h, update_instance) at e))
  | inl h ↦ elim (Loaded-cases f) [
    | inl l ↦ absurd (cc (rw (h, l, update_instance) at e))
    | inr ((v, rows), l) ↦
        let got : (x.1.name ≡ n) × Found m (find m rows) x =
          update_loaded-get n m changes v rows x (rw (h, l, update_instance) at e) in
        (got.0, rw (loaded-get m f v rows l) got.1)
  ]
]

module _ (n m : Text) (v : ℕ) (rows : List Instance) where
  -- What a removal leaves, seen from `m`, and what it tells of `n`.
  abbrev Removed : File × Bool → Type 0
  Removed x =
      (get_instance m x.0 ≡ (if n == m then returns none else returns (find m rows)))
      × ((find n rows ≡ none) ↔ (x.1 ≡ false))

  get_instance-without :
      get_instance m (holds v (without n rows))
      ≡ (if n == m then returns none else returns (find m rows))
  unfolding get_instance load_registry
  get_instance-without =
      rw (find-without n m rows) (elim (Bool-cases (n == m)) [ inl g ↦ rw g | inr g ↦ rw g ])

  remove_loaded-absent :
      (f : File) (x : File × Bool)
      → load_registry f ≡ returns (v, rows)
      → find n rows ≡ none
      → remove_loaded n f (v, rows) ≡ returns x
      → Removed x
  unfolding remove_loaded get_instance load_registry
  remove_loaded-absent f x l h e =
      let left : x ≡ (f, false) =
        cc (rw (without-absent n rows h, ==_refl (length rows), remove_loaded) at e) in
      subst Removed (sym left) (
        loaded-get m f v rows l
            ∙ ap (λ r. returns (find m r)) (sym (without-absent n rows h))
            ∙ get_instance-without,
        ((λ _. refl), (λ _. h)),
      )

  remove_loaded-present :
      (f : File) (x : File × Bool) (k : Instance)
      → find n rows ≡ some k
      → remove_loaded n f (v, rows) ≡ returns x
      → Removed x
  unfolding remove_loaded get_instance load_registry
  remove_loaded-present f x k h e =
      let left : x ≡ (holds v (without n rows), true) =
        cc (rw (without-present n rows k h, remove_loaded) at e) in
      subst Removed (sym left) (get_instance-without, ((λ p. absurd (cc)), (λ p. absurd (cc))))

-- Whenever a removal of the name `n` returns, nothing is found under `n` any more, every other name gives
-- what it gave before, and the result tells whether something was found under `n`.
remove_instance-get :
    (n m : Text) (f : File) (x : File × Bool)
    → remove_instance n f ≡ returns x
    → (get_instance m x.0 ≡ (if n == m then returns none else get_instance m f))
      × (get_instance n f ≡ returns none ↔ (x.1 ≡ false))
unfolding remove_instance
remove_instance-get n m f x e = elim (Loaded-cases f) [
  | inl l ↦ absurd (cc (rw (l, remove_instance) at e))
  | inr ((v, rows), l) ↦
      let e' : remove_loaded n f (v, rows) ≡ returns x = rw (l, remove_instance) at e in
      let got : Removed n m v rows x = elim (Option-cases (find n rows)) [
        | inl h ↦ remove_loaded-absent n m v rows f x l h e'
        | inr (k, h) ↦ remove_loaded-present n m v rows f x k h e'
      ] in
      rw (loaded-get m f v rows l, loaded-get n f v rows l)
        (got.0, ((λ p. got.1.0 (cc)), (λ p. ap returns (got.1.1 p))))
]

-- Adding an instance whose name has a slug: if the registry can be read, then the call raises a name
-- collision exactly if something is found under the slug, and else it returns.
pub add_instance_collides :
    (today slug : Text) (new : NewInstance) (f : File) (old : Option Instance)
    → sanitize_slug new.name ≡ some slug
    → get_instance slug f ≡ returns old
    → ((old ≡ none) × ((x : File × Instance) × (add_instance today new f ≡ returns x)))
      ⊎ ((old ≢ none) × (add_instance today new f ≡ raises name_collision))
unfolding add_instance add_row get_instance
add_instance_collides today slug new f old s g = elim (Loaded-cases f) [
  | inl l ↦ absurd (cc (rw (l, get_instance) at g))
  | inr ((v, rows), l) ↦
      let same : find slug rows ≡ old = cc (rw (loaded-get slug f v rows l) at g) in
      elim (Bool-cases (is_taken slug rows)) [
        | inl t ↦ inr (
          (λ z. is_taken-find slug rows t (same ∙ z)),
          rw (s, l, add_instance) (rw (t, add_row) refl),
        )
        | inr t ↦ inl (
          sym same ∙ find-is_taken slug rows t,
          (
            (holds v (rows ++ new_row today slug new ∷ []), new_row today slug new),
            rw (s, l, add_instance) (rw (t, add_row) refl),
          ),
        )
      ]
]
