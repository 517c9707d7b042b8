-- ===== src/Base/Outcomes.antt =====
-- What a Python call gives: its value, or the exception that it raises.

pub data Outcome {ℓ κ} (E : Type ℓ) (A : Type κ) : Type (ℓ ⊔ κ) where
  returns : A → Outcome E A
  raises : E → Outcome E A

module _ {ℓ κ} {E : Type ℓ} {A B : Type κ} where
  infixl 5 ◌>>=◌
  abbrev pub ◌>>=◌ : Outcome E A → (A → Outcome E B) → Outcome E B
  returns a >>= f = f a
  raises e >>= f = raises e
