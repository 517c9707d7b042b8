-- ===== src/Cli/Registry/Names.antt =====
-- The names of the registry, through any sequence of operations.
use mathlib.Core.Path.{subst}
use mathlib.Core.Option.{some-injective}
use job_squire.Base.{
  ℕ, Bool, false, ◌||◌, ◌≡◌, refl, ap, sym, ◌∙◌, ◌⊎◌, inl, inr, some, List, [], ◌∷◌, ◌++◌, Text,
  ◌==◌, list_eq, nat_eq, Outcome, returns, raises, arith, Bool-cases, Option-cases, length,
}
use job_squire.Cli.Slug.{sanitize_slug}
use job_squire.Cli.Slug.Shape.{IsSlug, sanitize_slug-IsSlug}
use job_squire.Cli.Registry.{
  Instance, File, missing, malformed, holds, RegistryError, unreadable, registry_version,
  NewInstance, Change, load_registry, is_taken, new_row, add_row, add_instance, are_known,
  update_rows, update_loaded, update_instance, without, remove_loaded, remove_instance,
}
use job_squire.Cli.Registry.Rows.{set_fields_name}

-- Every name is a slug, and no name stands twice.
abbrev pub IsNamed : List Instance → Type 0
IsNamed [] = Unit
IsNamed (i ∷ rows) = IsSlug i.name × ((is_taken i.name rows ≡ false) × IsNamed rows)

-- A file that cannot be read names nothing.
abbrev pub IsRegistry : File → Type 0
IsRegistry missing = Unit
IsRegistry malformed = Unit
IsRegistry (holds v rows) = IsNamed rows

is_taken-last :
    (n : Text) (rows : List Instance) (new : Instance)
    → is_taken n (rows ++ new ∷ []) ≡ (is_taken n rows || new.name == n)
unfolding is_taken
is_taken-last n [] new = ground arith
is_taken-last n (i ∷ rows) new = ground (arith, is_taken-last n rows new)

IsNamed-last :
    (rows : List Instance) (new : Instance)
    → IsNamed rows
    → IsSlug new.name
    → is_taken new.name rows ≡ false
    → IsNamed (rows ++ new ∷ [])
unfolding is_taken
IsNamed-last [] new h s t = (s, (refl, tt))
IsNamed-last (i ∷ rows) new h s t =
    (h.0, (apart, IsNamed-last rows new h.1.1 s (ground (arith, t))))
  where
    apart : is_taken i.name (rows ++ new ∷ []) ≡ false
    apart = ground (arith, is_taken-last i.name rows new, h.1.0, t)

-- The names of the rows stay as they are.
abbrev SameNames : List Instance → List Instance → Type 0
SameNames rows after = (n : Text) → is_taken n after ≡ is_taken n rows

update_rows-IsNamed :
    (n : Text) (changes : List Change) (rows : List Instance) (x : List Instance × Instance)
    → update_rows n changes rows ≡ some x
    → IsNamed rows
    → IsNamed x.0 × SameNames rows x.0
unfolding update_rows is_taken
update_rows-IsNamed n changes [] x e h = absurd (cc)
update_rows-IsNamed n changes (k ∷ rows) x e h = elim (Bool-cases (k.name == n)) [
  | inl g ↦
      subst (λ (y : List Instance × Instance). IsNamed y.0 × SameNames (k ∷ rows) y.0)
        (some-injective _ x (simp g at e)) (simp (set_fields_name changes k) (h, (λ m. refl)))
  | inr g ↦ elim (Option-cases (update_rows n changes rows)) [
    | inl o ↦ absurd (cc (simp (g, o) at e))
    | inr (y, o) ↦
        let later : IsNamed y.0 × SameNames rows y.0 =
          update_rows-IsNamed n changes rows y o h.1.1 in
        subst (λ (y : List Instance × Instance). IsNamed y.0 × SameNames (k ∷ rows) y.0)
          (some-injective _ x (simp (g, o) at e))
          ((h.0, (later.1 k.name ∙ h.1.0, later.0)), (λ m. ap (λ b. k.name == m || b) (later.1 m)))
  ]
]

without-absent :
    (n m : Text) (rows : List Instance)
    → is_taken m rows ≡ false
    → is_taken m (without n rows) ≡ false
unfolding without is_taken
without-absent n m [] h = refl
without-absent n m (i ∷ rows) h = ground (arith, without-absent n m rows)

without-IsNamed : (n : Text) (rows : List Instance) → IsNamed rows → IsNamed (without n rows)
unfolding without
without-IsNamed n [] h = tt
without-IsNamed n (i ∷ rows) h = elim (Bool-cases (i.name == n)) [
  | inl e ↦ simp e (without-IsNamed n rows h.1.1)
  | inr e ↦ simp e (h.0, (without-absent n i.name rows h.1.0, without-IsNamed n rows h.1.1))
]

Loaded-IsNamed :
    (f : File)
    → IsRegistry f
    → (load_registry f ≡ raises unreadable)
      ⊎ ((l : ℕ × List Instance) × ((load_registry f ≡ returns l) × IsNamed l.1))
unfolding load_registry
Loaded-IsNamed missing h = inr ((registry_version, []), (refl, tt))
Loaded-IsNamed malformed h = inl refl
Loaded-IsNamed (holds v rows) h = inr ((v, rows), (refl, h))

abbrev result : {A : Type 0} → A → Outcome RegistryError A
result = returns

returned : {A : Type 0} {x y : A} → result x ≡ returns y → y ≡ x
returned p = cc

add_instance-IsRegistry :
    (today : Text) (new : NewInstance) (f : File) (x : File × Instance)
    → add_instance today new f ≡ returns x
    → IsRegistry f
    → IsRegistry x.0
unfolding add_instance add_row new_row
add_instance-IsRegistry today new f x e h = elim (Option-cases (sanitize_slug new.name)) [
  | inl s ↦ absurd (cc (rw (s, add_instance) at e))
  | inr (slug, s) ↦ elim (Loaded-IsNamed f h) [
    | inl l ↦ absurd (cc (rw (s, l, add_instance) at e))
    | inr ((v, rows), (l, named)) ↦
        let e' : add_row today slug new (v, rows) ≡ returns x = rw (s, l, add_instance) at e in
        elim (Bool-cases (is_taken slug rows)) [
          | inl t ↦ absurd (cc (rw (t, add_row) at e'))
          | inr t ↦
              let file : x.0 ≡ holds v (rows ++ new_row today slug new ∷ []) =
                ap (λ y. y.0) (returned (rw (t, add_row) at e')) in
              subst IsRegistry (sym file) (
                IsNamed-last rows (new_row today slug new) named
                  (sanitize_slug-IsSlug new.name slug s) t)
        ]
  ]
]

update_instance-IsRegistry :
    (n : Text) (changes : List Change) (f : File) (x : File × Instance)
    → update_instance n changes f ≡ returns x
    → IsRegistry f
    → IsRegistry x.0
unfolding update_instance update_loaded
update_instance-IsRegistry n changes f x e h = elim (Bool-cases (are_known changes)) [
  | inr k ↦ absurd (cc (rw (k, update_instance) at e))
  | inl k ↦ elim (Loaded-IsNamed f h) [
    | inl l ↦ absurd (cc (rw (k, l, update_instance) at e))
    | inr ((v, rows), (l, named)) ↦
        let e' : update_loaded n changes (v, rows) ≡ returns x = rw (k, l, update_instance) at e in
        elim (Option-cases (update_rows n changes rows)) [
          | inl o ↦ absurd (cc (rw (o, update_loaded) at e'))
          | inr (y, o) ↦
              let file : x.0 ≡ holds v y.0 =
                ap (λ z. z.0) (returned (rw (o, update_loaded) at e')) in
              subst IsRegistry (sym file) (update_rows-IsNamed n changes rows y o named).0
        ]
  ]
]

remove_instance-IsRegistry :
    (n : Text) (f : File) (x : File × Bool)
    → remove_instance n f ≡ returns x
    → IsRegistry f
    → IsRegistry x.0
unfolding remove_instance remove_loaded
remove_instance-IsRegistry n f x e h = elim (Loaded-IsNamed f h) [
  | inl l ↦ absurd (cc (rw (l, remove_instance) at e))
  | inr ((v, rows), (l, named)) ↦
      let e' : remove_loaded n f (v, rows) ≡ returns x = rw (l, remove_instance) at e in
      elim (Bool-cases (length (without n rows) == length rows)) [
        | inl k ↦
            let file : x.0 ≡ f = ap (λ z. z.0) (returned (rw (k, remove_loaded) at e')) in
            subst IsRegistry (sym file) h
        | inr k ↦
            let file : x.0 ≡ holds v (without n rows) =
              ap (λ z. z.0) (returned (rw (k, remove_loaded) at e')) in
            subst IsRegistry (sym file) (without-IsNamed n rows named)
      ]
]

-- A call of the module that may write the file.
pub data Operation : Type 0 where
  add : Text → NewInstance → Operation
  update : Text → List Change → Operation
  remove : Text → Operation

-- The file after a call; one that raises leaves it as it was.
abbrev left : {A : Type 0} → File → Outcome RegistryError (File × A) → File
left f (returns x) = x.0
left f (raises e) = f

abbrev pub perform : Operation → File → File
perform (add today new) f = left f (add_instance today new f)
perform (update n changes) f = left f (update_instance n changes f)
perform (remove n) f = left f (remove_instance n f)

abbrev pub perform_all : List Operation → File → File
perform_all [] f = f
perform_all (op ∷ ops) f = perform_all ops (perform op f)

left-IsRegistry :
    {A : Type 0} (f : File) (o : Outcome RegistryError (File × A))
    → ((x : File × A) → o ≡ returns x → IsRegistry x.0)
    → IsRegistry f
    → IsRegistry (left f o)
left-IsRegistry f (returns x) k h = k x refl
left-IsRegistry f (raises e) k h = h

perform-IsRegistry : (op : Operation) (f : File) → IsRegistry f → IsRegistry (perform op f)
perform-IsRegistry (add today new) f h =
    left-IsRegistry f (add_instance today new f) (λ x e. add_instance-IsRegistry today new f x e h)
      h
perform-IsRegistry (update n changes) f h =
    left-IsRegistry f (update_instance n changes f)
      (λ x e. update_instance-IsRegistry n changes f x e h) h
perform-IsRegistry (remove n) f h =
    left-IsRegistry f (remove_instance n f) (λ x e. remove_instance-IsRegistry n f x e h) h

-- From a registry whose names are slugs that differ from each other, such as a missing file, any sequence of
-- additions, updates and removals, with those that raise, leads to such a registry.
pub perform_all-IsRegistry :
    (ops : List Operation) (f : File) → IsRegistry f → IsRegistry (perform_all ops f)
perform_all-IsRegistry [] f h = h
perform_all-IsRegistry (op ∷ ops) f h =
    perform_all-IsRegistry ops (perform op f) (perform-IsRegistry op f h)
