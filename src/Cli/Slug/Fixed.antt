-- ===== src/Cli/Slug/Fixed.antt =====
-- Sanitizing leaves a slug as it is.
use job_squire.Base.{
  ℕ, Bool, true, false, ◌≡◌, ◌↔◌, refl, ap, ◌∙◌, inl, inr, some, [], ◌∷◌, Text, strip, lower,
  lower_char, is_upper, lstrip, rstrip, is_space, lstrip_chars, rstrip_chars, strip_chars, ◌==◌,
  nat_eq, arith, Bool-cases,
}
use job_squire.Cli.Slug.{
  hyphen, is_gap, is_slug_char, gaps_to_hyphens, drop_invalid, collapse, clean, sanitize_slug,
}
use job_squire.Cli.Slug.Shape.{
  IsClean, IsSingle, EndsWell, IsSingle-weaken, IsSlug, hyphens, rstrip_step, rstrip-cons,
  sanitize_slug-IsSlug,
}

not_space : (c : ℕ) → is_slug_char c ≡ true → is_space c ≡ false
unfolding is_slug_char is_space nat_eq
not_space c h = ground arith

not_gap : (c : ℕ) → is_slug_char c ≡ true → is_gap c ≡ false
unfolding is_slug_char is_space is_gap nat_eq
not_gap c h = ground arith

lower_same : (c : ℕ) → is_slug_char c ≡ true → lower_char c ≡ c
unfolding is_slug_char is_upper lower_char nat_eq
lower_same c h = ground arith

lstrip_same : (s : Text) → IsClean s → lstrip s ≡ s
unfolding lstrip
lstrip_same [] h = refl
lstrip_same (c ∷ s) h = rw (not_space c h.0) refl

rstrip_same : (s : Text) → IsClean s → rstrip s ≡ s
unfolding rstrip
rstrip_same [] h = refl
rstrip_same (c ∷ s) h = rw (not_space c h.0) (ap (λ r. c ∷ r) (rstrip_same s h.1))

lower_all_same : (s : Text) → IsClean s → lower s ≡ s
unfolding lower
lower_all_same [] h = refl
lower_all_same (c ∷ s) h = rw (lower_same c h.0) (ap (λ r. c ∷ r) (lower_all_same s h.1))

gaps_same : (s : Text) → IsClean s → gaps_to_hyphens false s ≡ s
unfolding gaps_to_hyphens
gaps_same [] h = refl
gaps_same (c ∷ s) h = rw (not_gap c h.0, gaps_to_hyphens) (ap (λ r. c ∷ r) (gaps_same s h.1))

drop_same : (s : Text) → IsClean s → drop_invalid s ≡ s
unfolding drop_invalid
drop_same [] h = refl
drop_same (c ∷ s) h = rw h.0 (ap (λ r. c ∷ r) (drop_same s h.1))

collapse_same : (b : Bool) (s : Text) → IsSingle b s → collapse b s ≡ s
unfolding collapse
collapse_same true [] h = refl
collapse_same false [] h = refl
collapse_same true (c ∷ s) h = rw (h.0, collapse) (ap (λ r. c ∷ r) (collapse_same false s h.1))
collapse_same false (c ∷ s) h = elim (Bool-cases (c == hyphen)) [
  | inl e ↦ rw (e, collapse) (ap (λ r. c ∷ r) (collapse_same true s (rw e at h)))
  | inr e ↦ rw (e, collapse) (ap (λ r. c ∷ r) (collapse_same false s (rw e at h)))
]

left_same : (s : Text) → IsSingle true s → lstrip_chars hyphens s ≡ s
unfolding lstrip_chars
left_same [] h = refl
left_same (c ∷ s) h = rw h.0 refl

right_same : (s : Text) → EndsWell s → rstrip_chars hyphens s ≡ s
unfolding rstrip_chars rstrip_step
right_same [] h = refl
right_same (c ∷ []) h = rw h refl
right_same (c ∷ d ∷ s) h =
    rstrip-cons c (d ∷ s)
    ∙ ap (rstrip_step c) (right_same (d ∷ s) h)
    ∙ elim (Bool-cases (c == hyphen)) [ inl e ↦ rw e refl | inr e ↦ rw e refl ]

clean_same : (s : Text) → IsSlug s → clean s ≡ s
unfolding clean strip_chars
clean_same s h =
    rw (drop_same s h.chars, collapse_same false s (IsSingle-weaken s h.inner), left_same s h.inner)
      (right_same s h.last)

-- A text is a slug exactly if sanitizing it gives itself.
pub sanitize_slug_iff : (s : Text) → (sanitize_slug s ≡ some s) ↔ IsSlug s
unfolding sanitize_slug strip
sanitize_slug_iff s = (
  sanitize_slug-IsSlug s s,
  λ h.
      rw
        (
          lstrip_same s h.chars,
          rstrip_same s h.chars,
          lower_all_same s h.chars,
          gaps_same s h.chars,
          clean_same s h,
          h.some_char,
        )
        refl,
)
