-- ===== src/App/Vault/Redact.antt =====
-- `_redact_core` and `redact` of app/privacy.py. The engine of regular expressions is a parameter: a pattern splits a
-- text into what stands between its matches and the matches with their groups, as `re.finditer` does. The removal of
-- sensitive sentences and the database are parameters too.
use job_squire.Base.{
  ℕ, ◌+◌, ◌-◌, ◌*◌, ◌%◌, Bool, true, false, not, ◌&&◌, ◌||◌, Option, none, some, List, [], ◌∷◌,
  ◌++◌, Text, txt, length, lower, take, leb, ltb, contains, any_of, ◌==◌, list_eq, nat_eq,
  if◌then◌else◌,
}
use job_squire.Base.Dict.{insert}
use job_squire.App.Vault.Placeholder.{Digest, make_placeholder}
use job_squire.App.Vault.Store.{Mapping, persist_mappings}
use job_squire.App.Vault.Words.{words, name_stopwords, context_name_exclude, common_first_names}

pub data Piece : Type 0 where
  plain : Text → Piece
  found : Text → List Text → Piece

abbrev pub Pattern : Type 0
Pattern = Text → List Piece

-- `patterns` are `_PATTERN_PASS` and the operator's; `pattern_of` compiles a known value of a kind.
pub record Engine : Type 0 where
  pub digest : Digest
  pub patterns : List (Text × Pattern)
  pub card_pattern : Pattern
  pub context_pattern : Pattern
  pub pair_pattern : Pattern
  pub pattern_of : Text → Text → Pattern
  pub strip_spi : Text → Text

-- What a `_repl` does with a match: the text in its place, and the entry of the mapping.
pub record Replacement : Type 0 where
  pub shown : Text
  pub placeholder : Text
  pub value : Text

abbrev pub Repl : Type 0
Repl = Text → List Text → Option Replacement

-- `pattern.sub(_repl, text)`; a match with no replacement stays.
unfoldable pub sub : Repl → List Piece → Mapping → Text × Mapping
sub f [] mapping = ([], mapping)
sub f (plain s ∷ ps) mapping = let rest = sub f ps mapping in (s ++ rest.0, rest.1)
sub f (found whole groups ∷ ps) mapping = elim (f whole groups) [
  | none ↦ let rest = sub f ps mapping in (whole ++ rest.0, rest.1)
  | some r ↦
      let rest = sub f ps (insert r.placeholder r.value mapping) in (r.shown ++ rest.0, rest.1)
]

-- `sum(digits)` of the check of `_luhn_ok`, where every second digit is doubled.
unfoldable pub luhn_total : Bool → Text → ℕ
luhn_total double [] = 0
luhn_total double (c ∷ s) =
    let d = c - 48 in
    let rest = luhn_total (not double) s in
    (if double then (if ltb 9 (d * 2) then d * 2 - 9 else d * 2) else d) + rest

unfoldable pub luhn_ok : Text → Bool
luhn_ok digits = luhn_total (length digits % 2 == 0) digits % 10 == 0

-- `re.sub(r"[ \-]", "", raw)`
unfoldable pub without_marks : Text → Text
without_marks [] = []
without_marks (c ∷ s) = let rest = without_marks s in if c == 32 || c == 45 then rest else c ∷ rest

unfoldable pub is_stopword : Text → Bool
is_stopword w = contains name_stopwords w || contains context_name_exclude w

unfoldable pub lowered : List Text → List Text
lowered [] = []
lowered (w ∷ ws) = lower w ∷ lowered ws

unfoldable pub in_place : Text → Text → Replacement
in_place ph value = record { shown = ph; placeholder = ph; value = value }

module _ (digest : Digest) where
  -- The pattern pass.
  unfoldable pub whole_repl : Text → Repl
  whole_repl kind whole groups = some (in_place (make_placeholder digest kind whole) whole)

  -- `_sub_value`, which stores the known value and not the text that it matched.
  unfoldable pub value_repl : Text → Text → Repl
  value_repl kind value whole groups = some (in_place (make_placeholder digest kind value) value)

  -- `_sub_creditcards`
  unfoldable pub card_repl : Repl
  card_repl whole groups =
      let digits = without_marks whole in
      if leb 13 (length digits) && leb (length digits) 19 && luhn_ok digits
      then some (in_place (make_placeholder digest (txt "CARD") digits) whole)
      else none

  -- `_sub_context_names`: the name is the end of the match.
  unfoldable pub context_repl : Repl
  context_repl whole [] = none
  context_repl whole (name ∷ _) =
      if any_of is_stopword (lowered (words name))
      then none
      else (let ph = make_placeholder digest (txt "NAME") name in
          some (record {
            shown = take (length whole - length name) whole ++ ph;
            placeholder = ph;
            value = name;
          }))

  unfoldable pub pair_of_names : Text → Text → Option Replacement
  pair_of_names first last =
      if not (contains common_first_names (lower first))
        || contains name_stopwords (lower first)
        || contains name_stopwords (lower last)
        || contains context_name_exclude (lower last)
      then none
      else (let full = first ++ txt " " ++ last in
          some (in_place (make_placeholder digest (txt "NAME") full) full))

  -- `_sub_heuristic_names`
  unfoldable pub pair_repl : Repl
  pair_repl whole (first ∷ last ∷ _) = pair_of_names first last
  pair_repl whole _ = none

abbrev pub Values : Type 0
Values = List (Text × Text)

module _ (e : Engine) where
  unfoldable pub pattern_pass : List (Text × Pattern) → Text × Mapping → Text × Mapping
  pattern_pass [] x = x
  pattern_pass ((kind, pattern) ∷ ps) (text, mapping) =
      pattern_pass ps (sub (whole_repl e.digest kind) (pattern text) mapping)

  -- The loops of `_sub_value`.
  unfoldable pub value_pass : Values → Text × Mapping → Text × Mapping
  value_pass [] x = x
  value_pass ((kind, value) ∷ vs) (text, mapping) =
      value_pass vs (sub (value_repl e.digest kind value) (e.pattern_of kind value text) mapping)

  unfoldable pub card_pass : Text × Mapping → Text × Mapping
  card_pass (text, mapping) = sub (card_repl e.digest) (e.card_pattern text) mapping

  unfoldable pub name_pass : Bool → Text × Mapping → Text × Mapping
  name_pass false x = x
  name_pass true (text, mapping) =
      let x = sub (context_repl e.digest) (e.context_pattern text) mapping in
      sub (pair_repl e.digest) (e.pair_pattern x.0) x.1

  unfoldable pub strict_pass : Option Values → Text × Mapping → Text × Mapping
  strict_pass none x = x
  strict_pass (some vs) x = value_pass vs x

  -- `_redact_core`, without the flags.
  unfoldable pub redact_core :
      Values → Option Values → Bool → Bool → Text → Mapping → Text × Mapping
  redact_core known strict strip heuristic text mapping =
      let start = if strip then e.strip_spi text else text in
      strict_pass strict (
        name_pass heuristic
          (value_pass known (card_pass (pattern_pass e.patterns (start, mapping)))))

  -- `redact`: the text, its mapping, and the vault after it.
  unfoldable pub redact :
      Values → Option Values → Bool → Bool → Text → Mapping → (Text × Mapping) × Mapping
  redact known strict strip heuristic [] vault = (([], []), vault)
  redact known strict strip heuristic (c ∷ s) vault =
      let x = redact_core known strict strip heuristic (c ∷ s) [] in (x, persist_mappings x.1 vault)
