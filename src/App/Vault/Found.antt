-- ===== src/App/Vault/Found.antt =====
-- `PLACEHOLDER_RE` finds what `make_placeholder` of app/privacy.py writes, if the kind is of letters.
use job_squire.Base.{
  ℕ, ◌≤◌, Bool, true, false, ◌≡◌, refl, ap, ◌∙◌, some, [], ◌∷◌, ◌++◌, append_assoc, Text, txt,
  nonempty, length, strip, lower, lower_char, upper, upper_char, is_space, lstrip, starts_with, leb,
  list_eq, nat_eq, All, arith,
}
use job_squire.App.Vault.Placeholder.{
  Digest, make_placeholder, is_letter, is_hex, span, close, close_digest, match_digest, separator,
  with_kind, match_separated, match_kind, match_tag, match_placeholder,
}

-- The text is empty or begins with a character outside the class.
abbrev pub Stops : (ℕ → Bool) → Text → Type 0
Stops f [] = Unit
Stops f (c ∷ s) = f c ≡ false

abbrev pub Of : (ℕ → Bool) → Text → Type 0
Of f s = All (λ c. f c ≡ true) s

pub span-append : (f : ℕ → Bool) (s t : Text) → Of f s → Stops f t → span f (s ++ t) ≡ (s, t)
unfolding span
span-append f [] [] a b = refl
span-append f [] (c ∷ t) a b = rw b refl
span-append f (c ∷ s) t a b = rw (a.0, span-append f s t a.1 b) refl

letter_no_space : (c : ℕ) → is_letter c ≡ true → is_space c ≡ false
unfolding is_letter is_space nat_eq
letter_no_space c e = ground arith

hex_no_space : (c : ℕ) → is_hex c ≡ true → is_space c ≡ false
unfolding is_hex is_space nat_eq
hex_no_space c e = ground arith

pub lstrip-Stops : (s : Text) → Stops is_space s → lstrip s ≡ s
unfolding lstrip
lstrip-Stops [] a = refl
lstrip-Stops (c ∷ s) a = rw a refl

match_digest-found :
    (h rest : Text)
    → Of is_hex h
    → 6 ≤ length h
    → length h ≤ 16
    → match_digest (h ++ 125 ∷ 125 ∷ rest) ≡ some (h, rest)
unfolding match_digest is_hex is_space close close_digest starts_with lstrip nat_eq
match_digest-found h rest a l u =
    let long : leb 6 (length h) ≡ true = ground arith in
    let short : leb (length h) 16 ≡ true = ground arith in
    rw (span-append is_hex h (125 ∷ 125 ∷ rest) a refl, long, short) refl

lstrip-hex : (h rest : Text) → Of is_hex h → 6 ≤ length h → lstrip (h ++ rest) ≡ h ++ rest
lstrip-hex [] rest a l = absurd (omega arith)
lstrip-hex (c ∷ h) rest a l = lstrip-Stops (c ∷ h ++ rest) (hex_no_space c a.0)

pub lstrip-letters :
    (k rest : Text) → Of is_letter k → nonempty k ≡ true → lstrip (k ++ rest) ≡ k ++ rest
lstrip-letters [] rest a e = absurd (cc (e))
lstrip-letters (c ∷ k) rest a e = lstrip-Stops (c ∷ k ++ rest) (letter_no_space c a.0)

pub separator-found : (s : Text) → separator (95 ∷ s) ≡ some (lstrip s)
unfolding separator span is_space starts_with nat_eq
separator-found s = refl

match_kind-found :
    (k h rest : Text)
    → Of is_letter k
    → nonempty k ≡ true
    → Of is_hex h
    → 6 ≤ length h
    → length h ≤ 16
    → match_kind (k ++ 95 ∷ (h ++ 125 ∷ 125 ∷ rest)) ≡ some (k, (h, rest))
unfolding match_kind match_separated with_kind is_letter
match_kind-found k h rest a e b l u =
    rw
      (
        span-append is_letter k (95 ∷ (h ++ 125 ∷ 125 ∷ rest)) a refl,
        e,
        separator-found (h ++ 125 ∷ 125 ∷ rest),
        lstrip-hex h (125 ∷ 125 ∷ rest) b l,
        match_digest-found h rest b l u,
      )
      refl

pub match_placeholder_tag :
    (s : Text) → match_placeholder (txt "{{PII:" ++ s) ≡ match_kind (lstrip s)
unfolding match_placeholder match_tag starts_with lstrip is_space lower lower_char nat_eq
match_placeholder_tag s = refl

-- A digest gives six to sixteen hexadecimal digits.
pub record IsDigest (digest : Digest) : Type 0 where
  pub hex : (s : Text) → Of is_hex (digest s)
  pub long : (s : Text) → 6 ≤ length (digest s)
  pub short : (s : Text) → length (digest s) ≤ 16

pub glue : (k d u v : Text) → k ++ 95 ∷ [] ++ d ++ u ++ v ≡ k ++ 95 ∷ (d ++ (u ++ v))
glue [] d u v = ap (λ s. 95 ∷ s) (append_assoc d u v)
glue (c ∷ k) d u v = ap (λ s. c ∷ s) (glue k d u v)

upper-letters : (k : Text) → Of is_letter k → Of is_letter (upper k)
unfolding upper upper_char is_letter
upper-letters [] a = tt
upper-letters (c ∷ k) a = (ground arith, upper-letters k a.1)

upper-nonempty : (k : Text) → nonempty k ≡ true → nonempty (upper k) ≡ true
unfolding upper
upper-nonempty [] e = e
upper-nonempty (c ∷ k) e = refl

module _ (digest : Digest) where
  unfoldable pub digest_of : Text → Text → Text
  digest_of kind value = digest (upper kind ++ 0 ∷ lower (strip value))

  pub digest_of-hex : IsDigest digest → (kind value : Text) → Of is_hex (digest_of kind value)
  unfolding digest_of
  digest_of-hex g kind value = g.hex (upper kind ++ 0 ∷ lower (strip value))

  pub make_placeholder-append :
      (kind value rest : Text)
      → make_placeholder digest kind value ++ rest
        ≡ txt "{{PII:" ++ (upper kind ++ 95 ∷ (digest_of kind value ++ 125 ∷ 125 ∷ rest))
  unfolding make_placeholder digest_of
  make_placeholder-append kind value rest =
      ap (λ s. txt "{{PII:" ++ s) (glue (upper kind) (digest_of kind value) (125 ∷ 125 ∷ []) rest)

  -- What `make_placeholder` writes is matched as a whole, whatever follows it.
  pub match_placeholder-make :
      IsDigest digest
      → (kind value rest : Text) → Of is_letter kind
      → nonempty kind ≡ true
      → match_placeholder (make_placeholder digest kind value ++ rest)
        ≡ some (upper kind, (digest_of kind value, rest))
  unfolding digest_of
  match_placeholder-make g kind value rest a e =
      let k = upper kind in
      let h = digest_of kind value in
      let tail = 95 ∷ (h ++ 125 ∷ 125 ∷ rest) in
      let letters : Of is_letter k = upper-letters kind a in
      let some_letter : nonempty k ≡ true = upper-nonempty kind e in
      let input = upper kind ++ 0 ∷ lower (strip value) in
      ap match_placeholder (make_placeholder-append kind value rest)
      ∙ (match_placeholder_tag (k ++ tail)
          ∙ (ap match_kind (lstrip-letters k tail letters some_letter)
              ∙ match_kind-found k h rest letters some_letter (g.hex input) (g.long input)
                  (g.short input)))
