-- ===== src/Base/Values.antt =====
-- What holds of every key or value of a dict, and that a key is there.
use mathlib.Core.Path.{◌≡◌, refl, sym, ◌∙◌}
use mathlib.Core.Logic.{inl, inr}
use mathlib.Core.Option.{some, some-injective}
use mathlib.Core.Path.{subst}
use mathlib.Core.List.{[], ◌∷◌}
use job_squire.Base.Equality.{Eq, ◌==◌, ==_refl, ==_iff}
use job_squire.Base.Tests.{Bool-cases}
use job_squire.Base.Dict.{Dict, lookup, insert, erase, lookup-insert}

abbrev pub Values {ℓ κ μ} : {K : Type ℓ} {V : Type κ} → (V → Type μ) → Dict K V → Type μ
Values P [] = Unit
Values P ((k, v) ∷ d) = P v × Values P d

pub Values-mono {ℓ κ μ ν} :
    {K : Type ℓ} {V : Type κ} {P : V → Type μ} {Q : V → Type ν}
    → ((v : V) → P v → Q v)
    → (d : Dict K V) → Values P d
    → Values Q d
Values-mono f [] h = tt
Values-mono f ((k, v) ∷ d) h = (f v h.0, Values-mono f d h.1)

module _ {ℓ κ μ} {K : Type ℓ} {V : Type κ} ⦃e : Eq K⦄ (P : V → Type μ) where
  pub Values-insert : (k : K) (v : V) (d : Dict K V) → P v → Values P d → Values P (insert k v d)
  unfolding insert
  Values-insert k v [] p h = (p, tt)
  Values-insert k v ((j, w) ∷ d) p h = elim (Bool-cases (k == j)) [
    | inl g ↦ rw g (p, h.1)
    | inr g ↦ rw g (h.0, Values-insert k v d p h.1)
  ]

  pub Values-erase : (k : K) (d : Dict K V) → Values P d → Values P (erase k d)
  unfolding erase
  Values-erase k [] h = tt
  Values-erase k ((j, w) ∷ d) h = elim (Bool-cases (k == j)) [
    | inl g ↦ rw g (Values-erase k d h.1)
    | inr g ↦ rw g (h.0, Values-erase k d h.1)
  ]

  pub Values-lookup : (k : K) (v : V) (d : Dict K V) → lookup k d ≡ some v → Values P d → P v
  unfolding lookup
  Values-lookup k v [] q h = absurd (cc (q))
  Values-lookup k v ((j, w) ∷ d) q h = elim (Bool-cases (k == j)) [
    | inl g ↦ subst P (some-injective w v (rw g at q)) h.0
    | inr g ↦ Values-lookup k v d (rw g at q) h.1
  ]

module _ {ℓ κ} {K : Type ℓ} {V : Type κ} ⦃e : Eq K⦄ where
  -- The key has a value.
  abbrev pub Has : K → Dict K V → Type κ
  Has k d = (v : V) × (lookup k d ≡ some v)

  pub Has-insert_same : (k : K) (v : V) (d : Dict K V) → Has k (insert k v d)
  Has-insert_same k v d = (v, lookup-insert k k v d ∙ rw (==_refl k) refl)

  pub Has-insert : (j k : K) (v : V) (d : Dict K V) → Has j d → Has j (insert k v d)
  Has-insert j k v d h = elim (Bool-cases (j == k)) [
    | inl g ↦ (v, lookup-insert j k v d ∙ rw g refl)
    | inr g ↦ (h.0, lookup-insert j k v d ∙ rw g h.1)
  ]

abbrev pub Keys {ℓ κ μ} : {K : Type ℓ} {V : Type κ} → (K → Type μ) → Dict K V → Type μ
Keys P [] = Unit
Keys P ((k, v) ∷ d) = P k × Keys P d

module _ {ℓ κ μ} {K : Type ℓ} {V : Type κ} ⦃e : Eq K⦄ (P : K → Type μ) where
  pub Keys-insert : (k : K) (v : V) (d : Dict K V) → P k → Keys P d → Keys P (insert k v d)
  unfolding insert
  Keys-insert k v [] p h = (p, tt)
  Keys-insert k v ((j, w) ∷ d) p h = elim (Bool-cases (k == j)) [
    | inl g ↦ rw g (p, h.1)
    | inr g ↦ rw g (h.0, Keys-insert k v d p h.1)
  ]

  pub Keys-lookup : (k : K) (d : Dict K V) → Has k d → Keys P d → P k
  unfolding lookup
  Keys-lookup k [] q h = absurd (cc (q.1))
  Keys-lookup k ((j, w) ∷ d) q h = elim (Bool-cases (k == j)) [
    | inl g ↦ subst P (sym ((==_iff k j).0 g)) h.0
    | inr g ↦ Keys-lookup k d (q.0, rw g at q.1) h.1
  ]
