-- ===== src/Cli/Slug/Shape.antt =====
-- What a slug looks like, and that slugs are the names that sanitizing leaves alone.
use job_squire.Base.{
  ℕ, Bool, true, false, ◌&&◌, ◌≡◌, refl, sym, inl, inr, some, List, [], ◌∷◌, Text, nonempty, strip,
  lower, lstrip_chars, rstrip_chars, strip_chars, ◌==◌, nat_eq, if◌then◌else◌, Bool-cases,
}
use mathlib.Core.Path.{subst}
use mathlib.Core.Option.{some-injective}
use job_squire.Cli.Slug.{
  hyphen, is_slug_char, gaps_to_hyphens, drop_invalid, collapse, clean, sanitize_slug,
}

-- Only characters of slugs.
abbrev pub IsClean : Text → Type 0
IsClean [] = Unit
IsClean (c ∷ s) = (is_slug_char c ≡ true) × IsClean s

-- No two hyphens in a row, and none first if the flag is set.
abbrev pub IsSingle : Bool → Text → Type 0
IsSingle after [] = Unit
IsSingle true (c ∷ s) = ((c == hyphen) ≡ false) × IsSingle false s
IsSingle false (c ∷ s) = IsSingle (c == hyphen) s

-- The last character is no hyphen.
abbrev pub EndsWell : Text → Type 0
EndsWell [] = Unit
EndsWell (c ∷ []) = (c == hyphen) ≡ false
EndsWell (c ∷ d ∷ s) = EndsWell (d ∷ s)

-- A slug: some letters, digits and single hyphens, with no hyphen at either end.
pub record IsSlug (s : Text) : Type 0 where
  pub some_char : nonempty s ≡ true
  pub chars : IsClean s
  pub inner : IsSingle true s
  pub last : EndsWell s

drop_invalid-IsClean : (s : Text) → IsClean (drop_invalid s)
unfolding drop_invalid
drop_invalid-IsClean [] = tt
drop_invalid-IsClean (c ∷ s) = elim (Bool-cases (is_slug_char c)) [
  | inl h ↦ rw h (h, drop_invalid-IsClean s)
  | inr h ↦ rw h (drop_invalid-IsClean s)
]

collapse-IsClean : (b : Bool) (s : Text) → IsClean s → IsClean (collapse b s)
unfolding collapse
collapse-IsClean true [] h = tt
collapse-IsClean false [] h = tt
collapse-IsClean true (c ∷ s) h = elim (Bool-cases (c == hyphen)) [
  | inl e ↦ rw (e, collapse) (collapse-IsClean true s h.1)
  | inr e ↦ rw (e, collapse) (h.0, collapse-IsClean false s h.1)
]
collapse-IsClean false (c ∷ s) h = elim (Bool-cases (c == hyphen)) [
  | inl e ↦ rw (e, collapse) (h.0, collapse-IsClean true s h.1)
  | inr e ↦ rw (e, collapse) (h.0, collapse-IsClean false s h.1)
]

collapse-IsSingle : (b : Bool) (s : Text) → IsSingle b (collapse b s)
unfolding collapse
collapse-IsSingle true [] = tt
collapse-IsSingle false [] = tt
collapse-IsSingle true (c ∷ s) = elim (Bool-cases (c == hyphen)) [
  | inl e ↦ rw (e, collapse) (collapse-IsSingle true s)
  | inr e ↦ rw (e, collapse) (e, collapse-IsSingle false s)
]
collapse-IsSingle false (c ∷ s) = elim (Bool-cases (c == hyphen)) [
  | inl e ↦ rw (e, collapse) (rw e (collapse-IsSingle true s))
  | inr e ↦ rw (e, collapse) (rw e (collapse-IsSingle false s))
]

abbrev pub hyphens : List ℕ
hyphens = hyphen ∷ []

lstrip-IsClean : (s : Text) → IsClean s → IsClean (lstrip_chars hyphens s)
unfolding lstrip_chars
lstrip-IsClean [] h = tt
lstrip-IsClean (c ∷ s) h = elim (Bool-cases (c == hyphen)) [
  | inl e ↦ rw e (lstrip-IsClean s h.1)
  | inr e ↦ rw e h
]

pub IsSingle-weaken : (s : Text) → IsSingle true s → IsSingle false s
IsSingle-weaken [] h = tt
IsSingle-weaken (c ∷ s) h = rw h.0 h.1

lstrip-IsSingle : (s : Text) → IsSingle false s → IsSingle true (lstrip_chars hyphens s)
unfolding lstrip_chars
lstrip-IsSingle [] h = tt
lstrip-IsSingle (c ∷ s) h = elim (Bool-cases (c == hyphen)) [
  | inl e ↦ rw e (lstrip-IsSingle s (IsSingle-weaken s (rw e at h)))
  | inr e ↦ rw e (e, rw e at h)
]

-- What the right end of `c ∷ s` is stripped to, by what `s` is.
unfoldable pub rstrip_step : ℕ → Text → Text
rstrip_step c rest =
    if (c == hyphen) && (if nonempty rest then false else true) then [] else c ∷ rest

rstrip_step-IsClean :
    (c : ℕ) (r : Text) → is_slug_char c ≡ true → IsClean r → IsClean (rstrip_step c r)
unfolding rstrip_step
rstrip_step-IsClean c [] h k = elim (Bool-cases (c == hyphen)) [
  | inl e ↦ rw e tt
  | inr e ↦ rw e (h, tt)
]
rstrip_step-IsClean c (d ∷ r) h k = elim (Bool-cases (c == hyphen)) [
  | inl e ↦ rw e (h, k)
  | inr e ↦ rw e (h, k)
]

rstrip_step-EndsWell : (c : ℕ) (r : Text) → EndsWell r → EndsWell (rstrip_step c r)
unfolding rstrip_step
rstrip_step-EndsWell c [] k = elim (Bool-cases (c == hyphen)) [ inl e ↦ rw e tt | inr e ↦ rw e e ]
rstrip_step-EndsWell c (d ∷ r) k = elim (Bool-cases (c == hyphen)) [
  | inl e ↦ rw e k
  | inr e ↦ rw e k
]

pub rstrip-cons :
    (c : ℕ) (s : Text) → rstrip_chars hyphens (c ∷ s) ≡ rstrip_step c (rstrip_chars hyphens s)
unfolding rstrip_chars rstrip_step
rstrip-cons c s = go (rstrip_chars hyphens s) refl
  where
    go :
        (r : Text)
        → rstrip_chars hyphens s ≡ r
        → rstrip_chars hyphens (c ∷ s) ≡ rstrip_step c (rstrip_chars hyphens s)
    go [] e = rw (e, rstrip_chars) (elim (Bool-cases (c == hyphen)) [ inl g ↦ rw g | inr g ↦ rw g ])
    go (d ∷ r) e =
        rw (e, rstrip_chars) (elim (Bool-cases (c == hyphen)) [ inl g ↦ rw g | inr g ↦ rw g ])

rstrip-IsClean : (s : Text) → IsClean s → IsClean (rstrip_chars hyphens s)
unfolding rstrip_chars
rstrip-IsClean [] h = tt
rstrip-IsClean (c ∷ s) h =
    subst IsClean (sym (rstrip-cons c s))
      (rstrip_step-IsClean c (rstrip_chars hyphens s) h.0 (rstrip-IsClean s h.1))

rstrip-EndsWell : (s : Text) → EndsWell (rstrip_chars hyphens s)
unfolding rstrip_chars
rstrip-EndsWell [] = tt
rstrip-EndsWell (c ∷ s) =
    subst EndsWell (sym (rstrip-cons c s))
      (rstrip_step-EndsWell c (rstrip_chars hyphens s) (rstrip-EndsWell s))

IsSingle-nil : (b : Bool) → IsSingle b []
IsSingle-nil true = tt
IsSingle-nil false = tt

rstrip_step-IsSingle :
    (b : Bool) (c : ℕ) (r : Text) → IsSingle b (c ∷ r) → IsSingle b (rstrip_step c r)
unfolding rstrip_step
rstrip_step-IsSingle b c [] h = elim (Bool-cases (c == hyphen)) [
  | inl e ↦ rw e (IsSingle-nil b)
  | inr e ↦ rw e h
]
rstrip_step-IsSingle b c (d ∷ r) h = elim (Bool-cases (c == hyphen)) [
  | inl e ↦ rw e h
  | inr e ↦ rw e h
]

rstrip-IsSingle : (b : Bool) (s : Text) → IsSingle b s → IsSingle b (rstrip_chars hyphens s)
unfolding rstrip_chars
rstrip-IsSingle true [] h = tt
rstrip-IsSingle false [] h = tt
rstrip-IsSingle true (c ∷ s) h =
    subst (IsSingle true) (sym (rstrip-cons c s))
      (rstrip_step-IsSingle true c (rstrip_chars hyphens s) (h.0, rstrip-IsSingle false s h.1))
rstrip-IsSingle false (c ∷ s) h =
    subst (IsSingle false) (sym (rstrip-cons c s))
      (rstrip_step-IsSingle false c (rstrip_chars hyphens s) (rstrip-IsSingle (c == hyphen) s h))

clean-IsSlug : (s : Text) → nonempty (clean s) ≡ true → IsSlug (clean s)
unfolding clean strip_chars
clean-IsSlug s h =
    let t = collapse false (drop_invalid s) in
    let stripped = lstrip_chars hyphens t in
    record {
      some_char = h;
      chars =
          rstrip-IsClean stripped
            (lstrip-IsClean t (collapse-IsClean false (drop_invalid s) (drop_invalid-IsClean s)));
      inner =
          rstrip-IsSingle true stripped
            (lstrip-IsSingle t (collapse-IsSingle false (drop_invalid s)));
      last = rstrip-EndsWell stripped;
    }

-- Whatever text a name is made of, if it has a slug, then the slug is not empty, consists of lower case
-- letters, digits and hyphens, has no two hyphens in a row, and neither begins nor ends with one.
pub sanitize_slug-IsSlug : (raw slug : Text) → sanitize_slug raw ≡ some slug → IsSlug slug
unfolding sanitize_slug
sanitize_slug-IsSlug raw slug e =
    let s = gaps_to_hyphens false (lower (strip raw)) in
    elim (Bool-cases (nonempty (clean s))) [
      | inl h ↦
          subst IsSlug (some-injective (clean s) slug (rw (h, sanitize_slug) at e))
            (clean-IsSlug s h)
      | inr h ↦ absurd (cc (rw (h, sanitize_slug) at e))
    ]
