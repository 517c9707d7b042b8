-- ===== src/App/Vault/Lost.antt =====
-- Placeholders that `PLACEHOLDER_RE` of app/privacy.py does not find: the labels of the operator's own patterns may have
-- digits and underscores.
use mathlib.Core.Path.{subst}
use job_squire.Base.{
  ℕ, zero, Bool, true, false, ◌&&◌, ◌||◌, ◌≡◌, refl, sym, ap, ◌∙◌, inl, inr, none, some, [], ◌∷◌,
  ◌++◌, append-nil, append_assoc, Text, txt, nonempty, length, lower, lower_char, upper, upper_char,
  is_space, lstrip, starts_with, leb, ◌==◌, ==_iff, list_eq, nat_eq, pair_eq, All, All-append,
  arith, Bool-cases,
}
use job_squire.App.Vault.Placeholder.{
  Digest, make_placeholder, is_letter, is_hex, span, close, close_digest, match_digest, has_blank,
  separator, with_kind, match_separated, match_kind, match_tag, match_placeholder,
}
use job_squire.App.Vault.Store.{Lookup, substitute, rehydrate}
use job_squire.App.Vault.Found.{
  Of, span-append, lstrip-Stops, lstrip-letters, separator-found, IsDigest, digest_of,
  digest_of-hex, match_placeholder_tag, make_placeholder-append,
}
use job_squire.App.Vault.RoundTrip.{rehydrate_cases, no_brace}

-- `[A-Z0-9_]`
unfoldable pub is_label_char : ℕ → Bool
is_label_char c = (leb 65 c && leb c 90) || (leb 48 c && leb c 57) || c == 95

upper-label : (k : Text) → Of is_label_char k → upper k ≡ k
unfolding upper upper_char is_label_char nat_eq
upper-label [] a = refl
upper-label (c ∷ k) a =
    let same : upper_char c ≡ c = ground arith in
    ap (λ x. x ∷ upper k) same ∙ ap (λ t. c ∷ t) (upper-label k a.1)

label_no_space : (c : ℕ) → is_label_char c ≡ true → is_space c ≡ false
unfolding is_label_char is_space nat_eq
label_no_space c e = ground arith

label_no_close : (c : ℕ) (s : Text) → is_label_char c ≡ true → close (lstrip (c ∷ s)) ≡ none
unfolding is_label_char is_space lstrip close starts_with nat_eq
label_no_close c s e = ground arith

-- A text that begins with such a character.
data IsLabelled : Text → Type 0 where
  labelled : (c : ℕ) (s : Text) → is_label_char c ≡ true → IsLabelled (c ∷ s)

span_hex-IsLabelled : (b y : Text) → Of is_label_char b → IsLabelled (span is_hex (b ++ 95 ∷ y)).1
unfolding span is_hex is_label_char nat_eq
span_hex-IsLabelled [] y a = labelled 95 y refl
span_hex-IsLabelled (c ∷ b) y a = elim (Bool-cases (is_hex c)) [
  | inl g ↦ rw g (span_hex-IsLabelled b y a.1)
  | inr g ↦ rw g (labelled c (b ++ 95 ∷ y) a.0)
]

no_close-IsLabelled : (s : Text) → IsLabelled s → close (lstrip s) ≡ none
no_close-IsLabelled _ (labelled c s e) = label_no_close c s e

lstrip-label : (b y : Text) → Of is_label_char b → lstrip (b ++ 95 ∷ y) ≡ b ++ 95 ∷ y
unfolding is_space nat_eq
lstrip-label [] y a = lstrip-Stops (95 ∷ y) refl
lstrip-label (c ∷ b) y a = lstrip-Stops (c ∷ b ++ 95 ∷ y) (label_no_space c a.0)

no_digest : (s : Text) → close (lstrip (span is_hex s).1) ≡ none → match_digest s ≡ none
unfolding match_digest close_digest
no_digest s e =
    elim (Bool-cases (leb 6 (length (span is_hex s).0) && leb (length (span is_hex s).0) 16)) [
      | inl g ↦ rw (g, match_digest, e) refl
      | inr g ↦ rw (g, match_digest) refl
    ]

label_no_digest : (b y : Text) → Of is_label_char b → match_digest (lstrip (b ++ 95 ∷ y)) ≡ none
label_no_digest b y a =
    ap match_digest (lstrip-label b y a)
    ∙ no_digest (b ++ 95 ∷ y)
        (no_close-IsLabelled (span is_hex (b ++ 95 ∷ y)).1 (span_hex-IsLabelled b y a))

no_dash : (c : ℕ) → is_label_char c ≡ true → (c == 45) ≡ false
unfolding is_label_char nat_eq
no_dash c l = ground arith

digit_no_separator :
    (c : ℕ) (s : Text)
    → is_label_char c ≡ true
    → is_letter c ≡ false
    → (c == 95) ≡ false
    → separator (c ∷ s) ≡ none
unfolding separator span has_blank starts_with nat_eq
digit_no_separator c s l n g = rw (label_no_space c l, g, no_dash c l) refl

-- A digit is no separator, and behind an underscore stands no digest.
label_no_separator :
    (c : ℕ) (b y : Text)
    → is_label_char c ≡ true
    → is_letter c ≡ false
    → Of is_label_char b
    → (k : Text) → match_separated k (separator (c ∷ (b ++ 95 ∷ y))) ≡ none
unfolding match_separated with_kind
label_no_separator c b y l n a k = elim (Bool-cases (c == 95)) [
  | inl g ↦
      let underscore : c ≡ 95 = (==_iff c 95).0 g in
      let found : separator (c ∷ (b ++ 95 ∷ y)) ≡ some (lstrip (b ++ 95 ∷ y)) =
        ap (λ x. separator (x ∷ (b ++ 95 ∷ y))) underscore ∙ separator-found (b ++ 95 ∷ y) in
      rw (found, label_no_digest b y a) refl
  | inr g ↦ rw (digit_no_separator c (b ++ 95 ∷ y) l n g) refl
]

-- A label of an operator's pattern that is not of letters only: letters, and then a digit or an underscore and more.
pub record IsMixed (kind front : Text) (c : ℕ) (back : Text) : Type 0 where
  pub parts : kind ≡ front ++ c ∷ back
  pub label : Of is_label_char kind
  pub letters : Of is_letter front
  pub begins : nonempty front ≡ true
  pub other : is_letter c ≡ false

Of-append : (f : ℕ → Bool) (s t : Text) → Of f (s ++ t) → Of f t
Of-append f [] t a = a
Of-append f (c ∷ s) t a = Of-append f s t a.1

match_kind-mixed :
    (kind front back : Text) (c : ℕ) (y : Text)
    → IsMixed kind front c back
    → match_kind (front ++ c ∷ (back ++ 95 ∷ y)) ≡ none
unfolding match_kind
match_kind-mixed kind front back c y m =
    let chars : Of is_label_char (c ∷ back) =
      Of-append is_label_char front (c ∷ back) (subst (Of is_label_char) m.parts m.label) in
    rw
      (
        span-append is_letter front (c ∷ (back ++ 95 ∷ y)) m.letters m.other,
        m.begins,
        label_no_separator c back y chars.0 m.other chars.1 front,
      )
      refl

Plain : ℕ → Type 0
Plain c = (c == 123) ≡ false

label-Plain : (s : Text) → Of is_label_char s → All Plain s
unfolding is_label_char Plain nat_eq
label-Plain [] a = tt
label-Plain (c ∷ s) a = (ground arith, label-Plain s a.1)

hex-Plain : (s : Text) → Of is_hex s → All Plain s
unfolding is_hex Plain nat_eq
hex-Plain [] a = tt
hex-Plain (c ∷ s) a = (ground arith, hex-Plain s a.1)

substitute-Plain : (d : Lookup) (s : Text) → All Plain s → substitute d zero s ≡ (s, [])
unfolding substitute Plain
substitute-Plain d [] a = refl
substitute-Plain d (c ∷ s) a = rw (no_brace c s a.0, substitute-Plain d s a.1, substitute) refl

one_brace_tag : (s : Text) → match_placeholder (txt "{PII:" ++ s) ≡ match_kind (lstrip s)
unfolding match_placeholder match_tag starts_with lstrip is_space lower lower_char nat_eq
one_brace_tag s = refl

substitute-braces :
    (d : Lookup) (s : Text)
    → match_kind (lstrip s) ≡ none
    → All Plain s
    → substitute d zero (txt "{{PII:" ++ s) ≡ (txt "{{PII:" ++ s, [])
unfolding substitute Plain nat_eq
substitute-braces d s e a =
    rw
      (
        match_placeholder_tag s ∙ e,
        one_brace_tag s ∙ e,
        substitute-Plain d (txt "PII:" ++ s) (refl, (refl, (refl, (refl, a)))),
        substitute,
      )
      refl

module _ (digest : Digest) (d : Lookup) where
  -- What stands behind the tag.
  body : Text → Text → Text
  body kind value = kind ++ 95 ∷ (digest_of digest kind value ++ 125 ∷ 125 ∷ [])

  body-Plain :
      IsDigest digest → (kind value : Text) → Of is_label_char kind → All Plain (body kind value)
  unfolding body Plain nat_eq
  body-Plain g kind value a =
      All-append Plain kind (95 ∷ (digest_of digest kind value ++ 125 ∷ 125 ∷ []))
        (label-Plain kind a)
        (
          refl,
          All-append Plain (digest_of digest kind value) (125 ∷ 125 ∷ [])
              (hex-Plain (digest_of digest kind value) (digest_of-hex digest g kind value))
              (refl, (refl, tt)),
        )

  make_placeholder-body :
      (kind value : Text)
      → Of is_label_char kind
      → make_placeholder digest kind value ≡ txt "{{PII:" ++ body kind value
  unfolding body
  make_placeholder-body kind value a =
      sym (append-nil (make_placeholder digest kind value))
      ∙ (make_placeholder-append digest kind value []
          ∙ ap (λ k. txt "{{PII:" ++ (k ++ 95 ∷ (digest_of digest kind value ++ 125 ∷ 125 ∷ [])))
              (upper-label kind a))

  match_kind-body :
      (kind front back value : Text) (c : ℕ)
      → IsMixed kind front c back
      → match_kind (lstrip (body kind value)) ≡ none
  unfolding body
  match_kind-body kind front back value c m =
      let y = digest_of digest kind value ++ 125 ∷ 125 ∷ [] in
      let split : body kind value ≡ front ++ c ∷ (back ++ 95 ∷ y) =
        ap (λ k. k ++ 95 ∷ y) m.parts ∙ append_assoc front (c ∷ back) (95 ∷ y) in
      ap (λ s. match_kind (lstrip s)) split
      ∙ (ap match_kind (lstrip-letters front (c ∷ (back ++ 95 ∷ y)) m.letters m.begins)
          ∙ match_kind-mixed kind front back c y m)

  -- The placeholder of an operator's label that is of capital letters, digits and underscores, and not of letters only,
  -- is not found again: a text that is such a placeholder is rehydrated to itself, whatever the lookup has, and nothing
  -- is reported as unresolved.
  pub rehydrate-mixed :
      IsDigest digest
      → (kind front back value : Text) (c : ℕ) → IsMixed kind front c back
      → rehydrate d (make_placeholder digest kind value) ≡ (make_placeholder digest kind value, [])
  rehydrate-mixed g kind front back value c m =
      elim (rehydrate_cases digest d (make_placeholder digest kind value)) [
        | inr e ↦ e.1
        | inl e ↦
            let written = make_placeholder-body kind value m.label in
            let kept =
              substitute-braces d (body kind value) (match_kind-body kind front back value c m)
                (body-Plain g kind value m.label) in
            e ∙ (ap (substitute d zero) written ∙ (kept ∙ ap (λ s. (s, [])) (sym written)))
      ]
