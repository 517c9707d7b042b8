-- ===== src/App/Vault/Resolves.antt =====
-- A key of the vault of app/privacy.py stays, and the lookup of a rehydration has what the vault has.
use mathlib.Core.Path.{subst}
use job_squire.Base.{
  ◌≡◌, ◌⊎◌, refl, sym, ap, ◌∙◌, inl, inr, Option, none, some, [], ◌∷◌, Text, ◌==◌, ==_iff, list_eq,
  nat_eq, pair_eq, Bool-cases, Option-cases,
}
use job_squire.Base.Dict.{lookup, insert}
use job_squire.Base.Values.{Has, Has-insert, Has-insert_same}
use job_squire.App.Vault.Placeholder.{match_placeholder, Match}
use job_squire.App.Vault.Store.{
  Mapping, new_entries, update, persist_mappings, LookupKey, Lookup, key_of, add_match, add_entries,
}

Has-update : (k : Text) (d e : Mapping) → Has k d → Has k (update d e)
unfolding update
Has-update k d [] h = h
Has-update k d ((j, v) ∷ e) h = Has-update k (insert j v d) e (Has-insert k j v d h)

update-Has : (k : Text) (d e : Mapping) → Has k e → Has k (update d e)
unfolding update lookup
update-Has k d [] h = absurd (cc (h.1))
update-Has k d ((j, v) ∷ e) h = elim (Bool-cases (k == j)) [
  | inl g ↦
      let same : k ≡ j = (==_iff k j).0 g in
      Has-update k (insert j v d) e
        (subst (λ x. Has x (insert j v d)) (sym same) (Has-insert_same j v d))
  | inr g ↦ update-Has k (insert j v d) e (h.0, rw g at h.1)
]

new_entries-Has :
    (k : Text) (vault mapping : Mapping)
    → Has k mapping
    → Has k vault ⊎ Has k (new_entries vault mapping)
unfolding new_entries lookup
new_entries-Has k vault [] h = absurd (cc (h.1))
new_entries-Has k vault ((j, v) ∷ mapping) h = elim (Bool-cases (k == j)) [
  | inl g ↦
      let same : k ≡ j = (==_iff k j).0 g in
      elim (Option-cases (lookup j vault)) [
        | inl e ↦ rw (e, new_entries) (inr (v, rw g refl))
        | inr e ↦ inl (subst (λ x. Has x vault) (sym same) e)
      ]
  | inr g ↦
      let rest = new_entries-Has k vault mapping (h.0, rw g at h.1) in
      elim rest [
        | inl q ↦ inl q
        | inr q ↦ inr (elim (Option-cases (lookup j vault)) [
          | inl e ↦ rw (e, new_entries) (q.0, rw g q.1)
          | inr e ↦ rw (e.1, new_entries) q
        ])
      ]
]

-- What a redaction stored is in the vault then.
pub persist_mappings-Has :
    (k : Text) (mapping vault : Mapping) → Has k mapping → Has k (persist_mappings mapping vault)
unfolding persist_mappings
persist_mappings-Has k mapping vault h = elim (new_entries-Has k vault mapping h) [
  | inl q ↦ Has-update k vault (new_entries vault mapping) q
  | inr q ↦ update-Has k vault (new_entries vault mapping) q
]

add_match-Has :
    (k : LookupKey) (o : Option Match) (v : Text) (d : Lookup) → Has k d → Has k (add_match o v d)
unfolding add_match
add_match-Has k none v d h = h
add_match-Has k (some m) v d h = Has-insert k (key_of m) v d h

pub Has-add_entries :
    (k : LookupKey) (mapping : Mapping) (d : Lookup) → Has k d → Has k (add_entries mapping d)
unfolding add_entries
Has-add_entries k [] d h = h
Has-add_entries k ((ph, v) ∷ mapping) d h =
    Has-add_entries k mapping (add_match (match_placeholder ph) v d)
      (add_match-Has k (match_placeholder ph) v d h)

pub add_entries-Has :
    (ph : Text) (m : Match) (mapping : Mapping) (d : Lookup)
    → match_placeholder ph ≡ some m
    → Has ph mapping
    → Has (key_of m) (add_entries mapping d)
unfolding add_entries add_match lookup
add_entries-Has ph m [] d e h = absurd (cc (h.1))
add_entries-Has ph m ((j, v) ∷ mapping) d e h = elim (Bool-cases (ph == j)) [
  | inl g ↦
      let same : match_placeholder j ≡ some m =
        ap match_placeholder (sym ((==_iff ph j).0 g)) ∙ e in
      Has-add_entries (key_of m) mapping (add_match (match_placeholder j) v d)
        (rw same (Has-insert_same (key_of m) v d))
  | inr g ↦ add_entries-Has ph m mapping (add_match (match_placeholder j) v d) e (h.0, rw g at h.1)
]
