-- ===== src/Base/Lists.antt =====
-- Lists measured by native numbers, and the list lemmas that the components share.
use Prim.Native.Nat.{ℕ, zero, suc, ◌+◌, ◌-◌, min}
use mathlib.Core.Path.{◌≡◌, refl, ap, sym, subst}
use mathlib.Core.Logic.{◌⊎◌, inl, inr}
use mathlib.Core.Bool.{Bool, true, false, ◌||◌, ◌&&◌}
use mathlib.Core.List.{List, [], ◌∷◌, ◌++◌}
use native.Mathlib.Omega.{arith}

module _ {ℓ} {A : Type ℓ} where
  abbrev pub length : List A → ℕ
  length [] = 0
  length (x ∷ xs) = suc (length xs)

  abbrev pub take : ℕ → List A → List A
  take zero xs = []
  take (suc n) [] = []
  take (suc n) (x ∷ xs) = x ∷ take n xs

  abbrev pub drop : ℕ → List A → List A
  drop zero xs = xs
  drop (suc n) [] = []
  drop (suc n) (x ∷ xs) = drop n xs

  -- Every element satisfies `P`.
  abbrev pub All {κ} : (A → Type κ) → List A → Type κ
  All P [] = Unit
  All P (x ∷ xs) = P x × All P xs

  -- Python's `any(p(x) for x in xs)` and `[x for x in xs if p(x)]`.
  abbrev pub any_of : (A → Bool) → List A → Bool
  any_of p [] = false
  any_of p (x ∷ xs) = p x || any_of p xs

  abbrev pub all_of : (A → Bool) → List A → Bool
  all_of p [] = true
  all_of p (x ∷ xs) = p x && all_of p xs

  pub length-append : (xs ys : List A) → length (xs ++ ys) ≡ length xs + length ys
  length-append [] ys = omega arith
  length-append (x ∷ xs) ys = omega (arith, length-append xs ys)

  pub take-append-drop : (n : ℕ) (xs : List A) → take n xs ++ drop n xs ≡ xs
  take-append-drop zero xs = refl
  take-append-drop (suc n) [] = refl
  take-append-drop (suc n) (x ∷ xs) = ap (λ l. x ∷ l) (take-append-drop n xs)

  pub length-take : (n : ℕ) (xs : List A) → length (take n xs) ≡ min n (length xs)
  length-take zero xs = omega arith
  length-take (suc n) [] = omega arith
  length-take (suc n) (x ∷ xs) = omega (arith, length-take n xs)

  pub length-drop : (n : ℕ) (xs : List A) → length (drop n xs) ≡ length xs - n
  length-drop zero xs = omega arith
  length-drop (suc n) [] = omega arith
  length-drop (suc n) (x ∷ xs) = omega (arith, length-drop n xs)

  pub All-append {κ} : (P : A → Type κ) (xs ys : List A) → All P xs → All P ys → All P (xs ++ ys)
  All-append P [] ys h k = k
  All-append P (x ∷ xs) ys h k = (h.0, All-append P xs ys h.1 k)

pub data Empty {ℓ} : Type ℓ where

module _ {ℓ} {A : Type ℓ} where
  -- `x` stands somewhere in the list.
  abbrev pub Occurs : A → List A → Type ℓ
  Occurs x [] = Empty
  Occurs x (y ∷ ys) = (x ≡ y) ⊎ Occurs x ys

  pub of_All {κ} : (P : A → Type κ) (xs : List A) (x : A) → All P xs → Occurs x xs → P x
  of_All P [] x a o = elim o [ ]
  of_All P (y ∷ ys) x a (inl e) = subst P (sym e) a.0
  of_All P (y ∷ ys) x a (inr o) = of_All P ys x a.1 o

  pub Occurs-append : (xs ys : List A) (x : A) → Occurs x (xs ++ ys) → Occurs x xs ⊎ Occurs x ys
  Occurs-append [] ys x o = inr o
  Occurs-append (y ∷ xs) ys x (inl e) = inl (inl e)
  Occurs-append (y ∷ xs) ys x (inr o) = elim (Occurs-append xs ys x o) [
    | inl l ↦ inl (inr l)
    | inr r ↦ inr r
  ]
