-- ===== src/App/Vault/Store.antt =====
-- The vault of app/privacy.py and `rehydrate`: placeholders become values again.
use job_squire.Base.{
  ℕ, ◌-◌, suc, zero, not, ◌||◌, Option, none, some, List, [], ◌∷◌, ◌++◌, Text, txt, nonempty,
  length, lower, upper, take, list_eq, nat_eq, pair_eq, if◌then◌else◌,
}
use job_squire.Base.Dict.{Dict, lookup, insert}
use job_squire.App.Retry.{is_part}
use job_squire.App.Vault.Placeholder.{Digest, make_placeholder, Match, match_placeholder}

-- Placeholders and values: the vault, and the mapping of one redaction.
abbrev pub Mapping : Type 0
Mapping = Dict Text Text

-- `{ph: v for ph, v in mapping.items() if ph not in vault}`
unfoldable pub new_entries : Mapping → Mapping → Mapping
new_entries vault [] = []
new_entries vault ((ph, v) ∷ mapping) =
    let rest = new_entries vault mapping in
    elim (lookup ph vault) [ none ↦ (ph, v) ∷ rest | some _ ↦ rest ]

-- `d.update(e)`
unfoldable pub update : Mapping → Mapping → Mapping
update d [] = d
update d ((k, v) ∷ e) = update (insert k v d) e

-- `_persist_mappings`, where the file can be read and written.
unfoldable pub persist_mappings : Mapping → Mapping → Mapping
persist_mappings mapping vault = update vault (new_entries vault mapping)

abbrev pub LookupKey : Type 0
LookupKey = Text × Text

abbrev pub Lookup : Type 0
Lookup = Dict LookupKey Text

abbrev pub key_of : Match → LookupKey
key_of m = (upper m.0, lower m.1.0)

-- `_add` of `_rehydration_lookup`. A full match and a match at the start have the same groups.
unfoldable pub add_match : Option Match → Text → Lookup → Lookup
add_match none value d = d
add_match (some m) value d = insert (key_of m) value d

unfoldable pub add_entries : Mapping → Lookup → Lookup
add_entries [] d = d
add_entries ((ph, v) ∷ mapping) d = add_entries mapping (add_match (match_placeholder ph) v d)

-- The placeholders of known values.
unfoldable pub placed : Digest → List (Text × Text) → Mapping
placed digest [] = []
placed digest ((kind, v) ∷ values) = (make_placeholder digest kind v, v) ∷ placed digest values

-- `_rehydration_lookup`: the vault, the known values, the values of the strict mode, and the mapping of the call.
unfoldable pub rehydration_lookup :
    Digest → Mapping → List (Text × Text) → List (Text × Text) → Mapping → Lookup
rehydration_lookup digest vault known strict extra =
    add_entries extra (
      add_entries (placed digest strict) (add_entries (placed digest known) (add_entries vault [])))

-- `_repl` of `rehydrate`, before the rest of the text.
unfoldable pub replace : Option Text → Text → Text × List Text → Text × List Text
replace none whole rest = (whole ++ rest.0, whole ∷ rest.1)
replace (some v) whole rest = (v ++ rest.0, rest.1)

-- `PLACEHOLDER_RE.sub(_repl, text)` and the list `unresolved`. The first argument counts the characters left of a match.
unfoldable pub substitute : Lookup → ℕ → Text → Text × List Text
substitute d n [] = ([], [])
substitute d (suc n) (c ∷ s) = substitute d n s
substitute d zero (c ∷ s) = elim (match_placeholder (c ∷ s)) [
  | none ↦ let rest = substitute d zero s in (c ∷ rest.0, rest.1)
  | some m ↦
      let n = length s - length m.1.1 in
      replace (lookup (key_of m) d) (take (suc n) (c ∷ s)) (substitute d n s)
]

-- `rehydrate`, with the lookup that it builds.
unfoldable pub rehydrate : Lookup → Text → Text × List Text
rehydrate d text =
    if not (nonempty text) || not (is_part (txt "pii") (lower text))
    then (text, [])
    else substitute d zero text
