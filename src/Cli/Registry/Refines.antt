-- ===== src/Cli/Registry/Refines.antt =====
-- The registry as a finite map: what a reader sees of the file is a function from names to records, and the operations
-- act on it as insertion, update and deletion.
use job_squire.Base.{
  ℕ, true, false, ◌≡◌, refl, ap, sym, ◌∙◌, inl, inr, Option, none, some, List, [], ◌∷◌, ◌++◌, Text,
  ◌==◌, ==_iff, list_eq, nat_eq, if◌then◌else◌, returns, Bool-cases, Option-cases, length,
}
use job_squire.Cli.Slug.{sanitize_slug}
use job_squire.Cli.Registry.{
  Instance, File, NewInstance, Change, load_registry, find, is_taken, new_row, add_row,
  add_instance, are_known, set_fields, update_rows, update_loaded, update_instance, without,
  remove_loaded, remove_instance,
}
use job_squire.Cli.Registry.Rows.{
  find-last, find-without, update_rows-find, without-absent, without-present, is_taken-find,
  find-is_taken,
}
use job_squire.Cli.Registry.Names.{Operation, add, update, remove, perform, perform_all}

-- What `get_instance` gives for each name.
abbrev pub Registry : Type 0
Registry = Text → Option Instance

-- The registry that a file holds, if it can be read.
abbrev pub IsView : File → Registry → Type 0
IsView f view =
    (l : ℕ × List Instance) × ((load_registry f ≡ returns l) × ((n : Text) → find n l.1 ≡ view n))

unfoldable pub set : Text → Option Instance → Registry → Registry
set n value view m = if n == m then value else view m

unfoldable pub add_absent : NewInstance → Text → Text → Option Instance → Registry → Registry
add_absent new today slug none view = set slug (some (new_row today slug new)) view
add_absent new today slug (some old) view = view

-- An addition under a name that has a slug, and no record yet.
unfoldable pub insert_new : Text → NewInstance → Option Text → Registry → Registry
insert_new today new none view = view
insert_new today new (some slug) view = add_absent new today slug (view slug) view

-- An update of a record that is there, with fields that are declared.
unfoldable pub change : Text → List Change → Option Instance → Registry → Registry
change n changes none view = view
change n changes (some old) view = set n (some (set_fields changes old)) view

unfoldable pub apply : Operation → Registry → Registry
apply (add today new) view = insert_new today new (sanitize_slug new.name) view
apply (update n changes) view = if are_known changes then change n changes (view n) view else view
apply (remove n) view = set n none view

unfoldable pub apply_operations : List Operation → Registry → Registry
apply_operations [] view = view
apply_operations (op ∷ ops) view = apply_operations ops (apply op view)

same_else :
    (n m : Text) (value : Option Instance) {a b : Option Instance}
    → a ≡ b
    → (if n == m then value else a) ≡ (if n == m then value else b)
same_else n m value e = ap (λ o. if n == m then value else o) e

IsView-add :
    (today : Text) (new : NewInstance) (f : File) (view : Registry)
    → IsView f view
    → IsView (perform (add today new) f) (apply (add today new) view)
unfolding apply insert_new add_absent add_instance add_row new_row set load_registry
IsView-add today new f view h = elim (Option-cases (sanitize_slug new.name)) [
  | inl s ↦ rw (s, add_instance) h
  | inr (slug, s) ↦
      let v = h.0.0 in
      let rows = h.0.1 in
      let l : load_registry f ≡ returns (v, rows) = h.1.0 in
      let seen : find slug rows ≡ view slug = h.1.1 slug in
      elim (Bool-cases (is_taken slug rows)) [
        | inl t ↦ elim (Option-cases (view slug)) [
          | inl o ↦ absurd (is_taken-find slug rows t (seen ∙ o))
          | inr o ↦ rw (s, l, add_instance) (rw (t, o.1, add_row) h)
        ]
        | inr t ↦
            let absent : view slug ≡ none = sym seen ∙ find-is_taken slug rows t in
            rw (s, l, add_instance)
              (rw (t, absent, add_row)
                (
                  (v, rows ++ new_row today slug new ∷ []),
                  (
                    refl,
                    λ m.
                        find-last m rows (new_row today slug new) t
                        ∙ same_else slug m (some (new_row today slug new)) (h.1.1 m),
                  ),
                ))
      ]
]

-- An update changes the first row of the name, if there is one.
data Touches (n : Text) (changes : List Change) (rows : List Instance) : Type 0 where
  absent : update_rows n changes rows ≡ none → find n rows ≡ none → Touches n changes rows
  present :
      (x : List Instance × Instance) (i : Instance)
      → update_rows n changes rows ≡ some x
      → find n rows ≡ some i
      → x.1 ≡ set_fields changes i
      → Touches n changes rows

update_rows-Touches :
    (n : Text) (changes : List Change) (rows : List Instance) → Touches n changes rows
unfolding update_rows find
update_rows-Touches n changes [] = absent refl refl
update_rows-Touches n changes (i ∷ rows) = elim (Bool-cases (i.name == n)) [
  | inl g ↦
      present (set_fields changes i ∷ rows, set_fields changes i) i (rw g refl) (rw g refl) refl
  | inr g ↦ later i rows g (update_rows-Touches n changes rows)
]
  where
    later :
        (i : Instance) (rows : List Instance)
        → (i.name == n) ≡ false
        → Touches n changes rows
        → Touches n changes (i ∷ rows)
    later i rows g (absent e h) = absent (rw (g, e) refl) (rw g h)
    later i rows g (present x j e h q) = present (i ∷ x.0, x.1) j (rw (g, e) refl) (rw g h) q

updated-IsView :
    (n : Text) (changes : List Change) (f : File) (view : Registry) (v : ℕ) (rows : List Instance)
    → are_known changes ≡ true
    → load_registry f ≡ returns (v, rows)
    → ((m : Text) → find m rows ≡ view m)
    → Touches n changes rows
    → IsView (perform (update n changes) f) (apply (update n changes) view)
unfolding apply change update_instance update_loaded set load_registry
updated-IsView n changes f view v rows k l seen (absent e o) =
    let gone : view n ≡ none = sym (seen n) ∙ o in
    rw (k, l, update_instance) (rw (e, gone, update_loaded) ((v, rows), (l, seen)))
updated-IsView n changes f view v rows k l seen (present x i e o q) =
    let there : view n ≡ some i = sym (seen n) ∙ o in
    rw (k, l, update_instance)
      (rw (e, there, update_loaded)
        (
          (v, x.0),
          (
            refl,
            λ m.
                (update_rows-find n m changes rows x e).0
                ∙ (ap (λ y. if n == m then some y else find m rows) q
                    ∙ same_else n m (some (set_fields changes i)) (seen m)),
          ),
        ))

IsView-update :
    (n : Text) (changes : List Change) (f : File) (view : Registry)
    → IsView f view
    → IsView (perform (update n changes) f) (apply (update n changes) view)
unfolding apply update_instance
IsView-update n changes f view h = elim (Bool-cases (are_known changes)) [
  | inr k ↦ rw (k, update_instance) h
  | inl k ↦
      updated-IsView n changes f view h.0.0 h.0.1 k h.1.0 h.1.1
        (update_rows-Touches n changes h.0.1)
]

IsView-remove :
    (n : Text) (f : File) (view : Registry)
    → IsView f view
    → IsView (perform (remove n) f) (apply (remove n) view)
unfolding apply remove_instance remove_loaded set load_registry
IsView-remove n f view h =
    let v = h.0.0 in
    let rows = h.0.1 in
    let l : load_registry f ≡ returns (v, rows) = h.1.0 in
    let deleted : (m : Text) → find m (without n rows) ≡ (if n == m then none else view m) =
      λ m. find-without n m rows ∙ same_else n m none (h.1.1 m) in
    elim (Option-cases (find n rows)) [
      | inl o ↦
          let same : without n rows ≡ rows = without-absent n rows o in
          let unchanged : (length (without n rows) == length rows) ≡ true =
            (==_iff (length (without n rows)) (length rows)).1 (ap length same) in
          rw (l, unchanged, remove_instance, remove_loaded)
            ((v, rows), (l, λ m. ap (find m) (sym same) ∙ deleted m))
      | inr (i, o) ↦
          rw (l, without-present n rows i o, remove_instance, remove_loaded)
            ((v, without n rows), (refl, deleted))
    ]

perform-IsView :
    (op : Operation) (f : File) (view : Registry)
    → IsView f view
    → IsView (perform op f) (apply op view)
perform-IsView (add today new) f view h = IsView-add today new f view h
perform-IsView (update n changes) f view h = IsView-update n changes f view h
perform-IsView (remove n) f view h = IsView-remove n f view h

-- The registry refines a finite map: if a file can be read and holds a map from names to records, then after any
-- sequence of calls, with those that raise, it can be read and holds the map to which the same calls lead, where an
-- addition inserts the new record under the slug of its name unless one is there, an update with declared fields
-- changes the record that is there, a removal deletes, and a call that raises does nothing.
pub perform_all-IsView :
    (ops : List Operation) (f : File) (view : Registry)
    → IsView f view
    → IsView (perform_all ops f) (apply_operations ops view)
unfolding apply_operations
perform_all-IsView [] f view h = h
perform_all-IsView (op ∷ ops) f view h =
    perform_all-IsView ops (perform op f) (apply op view) (perform-IsView op f view h)
