-- ===== src/App/Vault/RoundTrip.antt =====
-- `rehydrate` of app/privacy.py gives the values back for the placeholders of a text.
use job_squire.Base.{
  ℕ, ◌-◌, zero, true, false, ◌≡◌, ◌⊎◌, refl, sym, ap, ◌∙◌, inl, inr, none, some, List, [], ◌∷◌,
  ◌++◌, Text, txt, nonempty, length, length-append, lower, lower_char, upper, starts_with, drop,
  ◌==◌, list_eq, nat_eq, pair_eq, All, arith, Bool-cases,
}
use job_squire.Base.Dict.{lookup}
use job_squire.App.Retry.{is_part}
use job_squire.App.Vault.Placeholder.{Digest, make_placeholder, is_letter, match_placeholder}
use job_squire.App.Vault.Store.{Lookup, replace, substitute, rehydrate}
use job_squire.App.Vault.Found.{Of, IsDigest, digest_of, match_placeholder-make}

-- A text with placeholders: text without a brace, and values of a kind.
pub data Chunk : Type 0 where
  literal : Text → Chunk
  secret : Text → Text → Chunk

module _ (digest : Digest) where
  pub render : List Chunk → Text
  render [] = []
  render (literal s ∷ cs) = s ++ render cs
  render (secret kind value ∷ cs) = make_placeholder digest kind value ++ render cs

  -- Each text has no brace, and each value is of a kind of letters and is what the lookup has for its placeholder.
  unfoldable pub Known : Lookup → List Chunk → Type 0
  Known d [] = Unit
  Known d (literal s ∷ cs) = All (λ c. (c == 123) ≡ false) s × Known d cs
  Known d (secret kind value ∷ cs) =
      (Of is_letter kind
        × ((nonempty kind ≡ true)
            × (lookup (upper (upper kind), lower (digest_of digest kind value)) d ≡ some value)))
      × Known d cs

pub restore : List Chunk → Text
restore [] = []
restore (literal s ∷ cs) = s ++ restore cs
restore (secret kind value ∷ cs) = value ++ restore cs

pub substitute-nil : (d : Lookup) → substitute d zero [] ≡ ([], [])
unfolding substitute
substitute-nil d = refl

pub no_brace : (c : ℕ) (s : Text) → (c == 123) ≡ false → match_placeholder (c ∷ s) ≡ none
unfolding match_placeholder starts_with nat_eq
no_brace c s e = rw (e, match_placeholder) refl

pub substitute-literal :
    (d : Lookup) (s t : Text)
    → All (λ c. (c == 123) ≡ false) s
    → substitute d zero (s ++ t) ≡ (s ++ (substitute d zero t).0, (substitute d zero t).1)
unfolding substitute
substitute-literal d [] t a = refl
substitute-literal d (c ∷ s) t a =
    rw (no_brace c (s ++ t) a.0, substitute-literal d s t a.1, substitute) refl

substitute-skip : (d : Lookup) (s t : Text) → substitute d (length s) (s ++ t) ≡ substitute d zero t
unfolding substitute
substitute-skip d [] [] = refl
substitute-skip d [] (c ∷ t) = refl
substitute-skip d (c ∷ s) t = substitute-skip d s t

length-front : (s t : Text) → length (s ++ t) - length t ≡ length s
length-front s t = rw (length-append s t) (omega arith)

substitute-match :
    (d : Lookup) (c : ℕ) (s t kind h v : Text)
    → match_placeholder (c ∷ (s ++ t)) ≡ some (kind, (h, t))
    → lookup (upper kind, lower h) d ≡ some v
    → substitute d zero (c ∷ (s ++ t)) ≡ (v ++ (substitute d zero t).0, (substitute d zero t).1)
unfolding substitute replace
substitute-match d c s t kind h v e l =
    rw (e, l, length-front s t, substitute-skip d s t, substitute, replace) refl

is_part-append : (p s t : Text) → is_part p t ≡ true → is_part p (s ++ t) ≡ true
unfolding is_part
is_part-append p [] t e = e
is_part-append p (c ∷ s) t e = rw (is_part-append p s t e) (ground arith)

lower-append : (s t : Text) → lower (s ++ t) ≡ lower s ++ lower t
unfolding lower
lower-append [] t = refl
lower-append (c ∷ s) t = ap (λ u. lower_char c ∷ u) (lower-append s t)

module _ (digest : Digest) (d : Lookup) where
  has_tag :
      (kind value rest : Text)
      → is_part (txt "pii") (lower (make_placeholder digest kind value ++ rest)) ≡ true
  unfolding is_part make_placeholder lower lower_char starts_with nat_eq
  has_tag kind value rest = refl

  substitute-secret :
      IsDigest digest
      → (kind value rest : Text) → Of is_letter kind
      → nonempty kind ≡ true
      → lookup (upper (upper kind), lower (digest_of digest kind value)) d ≡ some value
      → substitute d zero (make_placeholder digest kind value ++ rest)
        ≡ (value ++ (substitute d zero rest).0, (substitute d zero rest).1)
  unfolding make_placeholder
  substitute-secret g kind value rest a e l =
      substitute-match d 123 (drop 1 (make_placeholder digest kind value)) rest (upper kind)
        (digest_of digest kind value) value (match_placeholder-make digest g kind value rest a e) l

  substitute-render :
      IsDigest digest
      → (cs : List Chunk) → Known digest d cs
      → substitute d zero (render digest cs) ≡ (restore cs, [])
  unfolding render restore Known
  substitute-render g [] a = substitute-nil d
  substitute-render g (literal s ∷ cs) a =
      rw (substitute-literal d s (render digest cs) a.0, substitute-render g cs a.1) refl
  substitute-render g (secret kind value ∷ cs) a =
      rw
        (
          substitute-secret g kind value (render digest cs) a.0.0 a.0.1.0 a.0.1.1,
          substitute-render g cs a.1,
        )
        refl

  -- Without the tag there is no placeholder.
  restore-render :
      (cs : List Chunk)
      → is_part (txt "pii") (lower (render digest cs)) ≡ false
      → restore cs ≡ render digest cs
  unfolding render restore
  restore-render [] e = refl
  restore-render (literal s ∷ cs) e =
      elim (Bool-cases (is_part (txt "pii") (lower (render digest cs)))) [
        | inl g ↦
            let part = is_part-append (txt "pii") (lower s) (lower (render digest cs)) g in
            absurd (cc (ap (is_part (txt "pii")) (lower-append s (render digest cs)), part, e))
        | inr g ↦ ap (λ t. s ++ t) (restore-render cs g)
      ]
  restore-render (secret kind value ∷ cs) e = absurd (cc (has_tag kind value (render digest cs), e))

  pub rehydrate_cases :
      (text : Text)
      → (rehydrate d text ≡ substitute d zero text)
        ⊎ ((is_part (txt "pii") (lower text) ≡ false) × (rehydrate d text ≡ (text, [])))
  unfolding rehydrate
  rehydrate_cases [] = inl (sym (substitute-nil d))
  rehydrate_cases (c ∷ s) = elim (Bool-cases (is_part (txt "pii") (lower (c ∷ s)))) [
    | inl g ↦ inl (rw (g, rehydrate) refl)
    | inr g ↦ inr (g, rw (g, rehydrate) refl)
  ]

  -- A text in which values of kinds of letters stand as the placeholders that the lookup has for them, and no other
  -- brace, is rehydrated to the text with the values, and nothing is left unresolved.
  pub rehydrate-render :
      IsDigest digest
      → (cs : List Chunk) → Known digest d cs
      → rehydrate d (render digest cs) ≡ (restore cs, [])
  rehydrate-render g cs a = elim (rehydrate_cases (render digest cs)) [
    | inl e ↦ e ∙ substitute-render g cs a
    | inr e ↦ e.1 ∙ ap (λ t. (t, [])) (sym (restore-render cs e.0))
  ]
