-- ===== src/App/Vault/Minted.antt =====
-- The replacements of app/privacy.py store placeholders of kinds of letters.
use mathlib.Core.Path.{subst}
use mathlib.Core.Option.{some-injective}
use job_squire.Base.{
  keeps_if, true, not, ◌&&◌, ◌||◌, ◌≡◌, refl, inl, inr, Option, none, some, List, [], ◌∷◌, ◌++◌,
  Text, txt, nonempty, length, lower, leb, any_of, contains, list_eq, nat_eq, pair_eq, Option-cases,
}
use job_squire.Base.Dict.{insert}
use job_squire.Base.Values.{Keys, Keys-insert}
use job_squire.App.Vault.Placeholder.{Digest, make_placeholder, is_letter}
use job_squire.App.Vault.Store.{Mapping}
use job_squire.App.Vault.Found.{Of}
use job_squire.App.Vault.Redact.{
  Piece, plain, found, Replacement, in_place, Repl, sub, without_marks, luhn_ok, is_stopword,
  lowered, whole_repl, value_repl, card_repl, context_repl, pair_of_names, pair_repl,
}
use job_squire.App.Vault.Words.{words, common_first_names, name_stopwords, context_name_exclude}

pub record IsKind (kind : Text) : Type 0 where
  pub letters : Of is_letter kind
  pub begins : nonempty kind ≡ true

-- A placeholder that was made, of a kind of letters.
pub record Minted (digest : Digest) (ph : Text) : Type 0 where
  pub kind : Text
  pub value : Text
  pub is_kind : IsKind kind
  pub made : ph ≡ make_placeholder digest kind value

mint :
    (digest : Digest) (kind value : Text)
    → IsKind kind
    → Minted digest (make_placeholder digest kind value)
mint digest kind value k = record { kind = kind; value = value; is_kind = k; made = refl }

abbrev pub Kinds {ℓ} : {A : Type ℓ} → List (Text × A) → Type 0
Kinds [] = Unit
Kinds ((kind, _) ∷ xs) = IsKind kind × Kinds xs

module _ (digest : Digest) where
  -- A replacement stores only such a placeholder.
  pub Mints : Repl → Type 0
  Mints f =
      (whole : Text) (groups : List Text) (r : Replacement)
      → f whole groups ≡ some r
      → Minted digest r.placeholder

  pub sub-Minted :
      (f : Repl)
      → Mints f
      → (ps : List Piece) (mapping : Mapping) → Keys (Minted digest) mapping
      → Keys (Minted digest) (sub f ps mapping).1
  unfolding sub Mints
  sub-Minted f m [] mapping k = k
  sub-Minted f m (plain s ∷ ps) mapping k = sub-Minted f m ps mapping k
  sub-Minted f m (found whole groups ∷ ps) mapping k = elim (Option-cases (f whole groups)) [
    | inl e ↦ rw (e, sub) (sub-Minted f m ps mapping k)
    | inr e ↦
        rw (e.1, sub)
          (sub-Minted f m ps (insert e.0.placeholder e.0.value mapping) (
            Keys-insert (Minted digest) e.0.placeholder e.0.value mapping (m whole groups e.0 e.1)
              k))
  ]

  same_placeholder :
      (r r' : Replacement)
      → Minted digest r.placeholder
      → some r ≡ some r'
      → Minted digest r'.placeholder
  same_placeholder r r' m e =
      subst (λ (x : Replacement). Minted digest x.placeholder) (some-injective r r' e) m

  pub whole_repl-Mints : (kind : Text) → IsKind kind → Mints (whole_repl digest kind)
  unfolding whole_repl Mints in_place
  whole_repl-Mints kind k whole groups r e =
      same_placeholder (in_place (make_placeholder digest kind whole) whole) r
        (mint digest kind whole k) e

  pub value_repl-Mints : (kind value : Text) → IsKind kind → Mints (value_repl digest kind value)
  unfolding value_repl Mints in_place
  value_repl-Mints kind value k whole groups r e =
      same_placeholder (in_place (make_placeholder digest kind value) value) r
        (mint digest kind value k) e

  card : IsKind (txt "CARD")
  unfolding is_letter
  card = record { letters = (refl, (refl, (refl, (refl, tt)))); begins = refl }

  name : IsKind (txt "NAME")
  unfolding is_letter
  name = record { letters = (refl, (refl, (refl, (refl, tt)))); begins = refl }

  -- The option has no replacement, or one that stores such a placeholder.
  Good : Option Replacement → Type 0
  Good o = (r : Replacement) → o ≡ some r → Minted digest r.placeholder

  none-Good : Good none
  unfolding Good
  none-Good r e = absurd (cc (e))

  some-Good : (x : Replacement) → Minted digest x.placeholder → Good (some x)
  unfolding Good
  some-Good x m r e = same_placeholder x r m e

  pub card_repl-Mints : Mints (card_repl digest)
  unfolding card_repl Mints in_place Good
  card_repl-Mints whole groups =
      let digits = without_marks whole in
      keeps_if Good (leb 13 (length digits) && leb (length digits) 19 && luhn_ok digits) _ _
        (some-Good _ (mint digest (txt "CARD") digits card)) none-Good

  pub context_repl-Mints : Mints (context_repl digest)
  unfolding context_repl Mints Good
  context_repl-Mints whole [] = none-Good
  context_repl-Mints whole (n ∷ gs) =
      keeps_if Good (any_of is_stopword (lowered (words n))) _ _ none-Good
        (some-Good _ (mint digest (txt "NAME") n name))

  pub pair_repl-Mints : Mints (pair_repl digest)
  unfolding pair_repl pair_of_names Mints in_place Good
  pair_repl-Mints whole [] = none-Good
  pair_repl-Mints whole (n ∷ []) = none-Good
  pair_repl-Mints whole (first ∷ last ∷ gs) =
      keeps_if Good
        (not (contains common_first_names (lower first))
          || contains name_stopwords (lower first)
          || contains name_stopwords (lower last)
          || contains context_name_exclude (lower last))
        _ _ none-Good (some-Good _ (mint digest (txt "NAME") (first ++ txt " " ++ last) name))
