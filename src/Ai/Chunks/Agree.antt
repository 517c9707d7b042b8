-- ===== src/Ai/Chunks/Agree.antt =====
-- `_run_chunked_or_single` is a batch that fails where the batch gives an item up.
use job_squire.Base.{
  ℕ, zero, suc, ◌/◌, ◌<◌, ◌≡◌, ◌↔◌, refl, inl, inr, ap, none, some, List, [], ◌∷◌, ◌++◌, length,
  take, drop, leb, length-take, length-drop, Bool-cases, Outcome, returns, raises, arith,
}
use job_squire.Ai.Chunks.{Fault, capacity, other, Run, both, Batch, join, call_batched, run_chunked}

-- A run of two halves returns exactly if both do.
pub both_returns :
    {X : Type 0} (f : X → X → X) (left : Run X) (right : ℕ → Run X) (z : X) (m : ℕ)
    → both f left right ≡ some (returns z, m)
    → (x : X) × (n : ℕ) × (y : X) × (left ≡ some (returns x, n))
      × (right n ≡ some (returns y, m))
      × (z ≡ f x y)
unfolding both
both_returns f none right z m e = absurd (cc)
both_returns f (some (raises k, n)) right z m e = absurd (cc)
both_returns {X} f (some (returns x, n)) right z m e = second (right n) refl e
  where
    second :
        (o : Run X)
        → right n ≡ o
        → both f (some (returns x, n)) (λ _. o) ≡ some (returns z, m)
        → (x' : X) × (n' : ℕ) × (y : X) × (◌≡◌ {A = Run X}
            (some (returns x, n))
            (some (returns x', n')))
          × (right n' ≡ some (returns y, m))
          × (z ≡ f x' y)
    second none q e = absurd (cc)
    second (some (raises k, i)) q e = absurd (cc)
    second (some (returns y, i)) q e = (x, n, y, refl, (cc), (cc))

pub both_of_returns :
    {X : Type 0} (f : X → X → X) (left : Run X) (right : ℕ → Run X) (x y : X) (n m : ℕ)
    → left ≡ some (returns x, n)
    → right n ≡ some (returns y, m)
    → both f left right ≡ some (returns (f x y), m)
unfolding both
both_of_returns f left right x y n m p q = rw (p, both, q)

append-eq-nil : {X : Type 0} (xs ys : List X) → xs ++ ys ≡ [] → (xs ≡ []) × (ys ≡ [])
append-eq-nil [] ys e = (refl, e)
append-eq-nil (x ∷ xs) ys e = absurd (cc)

module _ {A R : Type 0} (ask : ℕ → List A → Outcome Fault (List R)) (min_chunk : ℕ)
    (pos : 0 < min_chunk) where
  to_batched :
      (fuel n : ℕ) (items : List A) (rs : List R) (m : ℕ)
      → run_chunked ask min_chunk fuel n items ≡ some (returns rs, m)
      → call_batched ask min_chunk fuel n items ≡ some (returns (rs, []), m)
  unfolding run_chunked call_batched join
  to_batched zero n items rs m = λ e. absurd (cc)
  to_batched (suc fuel) n items rs m = on_reply (λ k l. to_batched fuel k l) (ask n items) refl
    where
      mid : ℕ
      mid = length items / 2

      in_halves :
          ((k : ℕ) (l : List A) (r : List R) (i : ℕ)
            → run_chunked ask min_chunk fuel k l ≡ some (returns r, i)
            → call_batched ask min_chunk fuel k l ≡ some (returns (r, []), i))
          → (r : List R) × (i : ℕ) × (r' : List R) × (run_chunked ask min_chunk fuel
                (suc n)
                (take mid items)
              ≡ some (returns r, i))
            × (run_chunked ask min_chunk fuel i (drop mid items) ≡ some (returns r', m))
            × (rs ≡ r ++ r')
          → both join
              (call_batched ask min_chunk fuel (suc n) (take mid items))
              (λ k. call_batched ask min_chunk fuel k (drop mid items))
            ≡ some (returns (rs, []), m)
      in_halves ih (r, i, r', p, p', z) = rw z (
          both_of_returns join (call_batched ask min_chunk fuel (suc n) (take mid items))
            (λ k. call_batched ask min_chunk fuel k (drop mid items)) (r, []) (r', []) i m
            (ih _ _ r i p) (ih _ _ r' m p'))

      on_reply :
          ((k : ℕ) (l : List A) (r : List R) (i : ℕ)
            → run_chunked ask min_chunk fuel k l ≡ some (returns r, i)
            → call_batched ask min_chunk fuel k l ≡ some (returns (r, []), i))
          → (y : Outcome Fault (List R)) → ask n items ≡ y
          → run_chunked ask min_chunk (suc fuel) n items ≡ some (returns rs, m)
          → call_batched ask min_chunk (suc fuel) n items ≡ some (returns (rs, []), m)
      on_reply ih (returns r) q = rw (q, run_chunked, call_batched) (λ e. cc)
      on_reply ih (raises (other k)) q = rw (q, run_chunked, call_batched) (λ e. cc)
      on_reply ih (raises capacity) q = elim (Bool-cases (leb (length items) min_chunk)) [
        | inl k ↦ rw (q, run_chunked, call_batched) (rw k (λ e. cc))
        | inr k ↦
            rw (q, run_chunked, call_batched) (rw k (λ e. in_halves ih (both_returns _ _ _ rs m e)))
      ]

  -- What is known of the recursive calls.
  abbrev Earlier : ℕ → Type 0
  Earlier fuel =
      (k : ℕ) (l : List A)
      → 0 < length l
      → (r : List R) (i : ℕ) → call_batched ask min_chunk fuel k l ≡ some (returns (r, []), i)
      → run_chunked ask min_chunk fuel k l ≡ some (returns r, i)

  given_up :
      (n m : ℕ) (items : List A) (rs : List R)
      → ◌≡◌ {A = Run (Batch A R)} (some (returns ([], items), n)) (some (returns (rs, []), m))
      → items ≡ []
  given_up n m items rs e = cc

  module _ (fuel n : ℕ) (items : List A) (ih : Earlier fuel) (rs : List R) (m : ℕ) where
    abbrev mid : ℕ
    mid = length items / 2

    in_halves :
        min_chunk < length items
        → (x : Batch A R) × (i : ℕ) × (y : Batch A R) × (call_batched ask min_chunk fuel
              (suc n)
              (take mid items)
            ≡ some (returns x, i))
          × (call_batched ask min_chunk fuel i (drop mid items) ≡ some (returns y, m))
          × ((rs, []) ≡ join x y)
        → both ◌++◌
            (run_chunked ask min_chunk fuel (suc n) (take mid items))
            (λ k. run_chunked ask min_chunk fuel k (drop mid items))
          ≡ some (returns rs, m)
    unfolding join
    in_halves large ((r, f), i, (r', f'), p, p', z) =
        let (none_left, none_right) = append-eq-nil f f' (cc z) in
        rw (ap (λ (b : Batch A R). b.0) z) (
          both_of_returns ◌++◌ (run_chunked ask min_chunk fuel (suc n) (take mid items))
            (λ k. run_chunked ask min_chunk fuel k (drop mid items)) r r' i m
            (ih _ _ (ground (arith, length-take mid items)) r i (rw none_left at p))
            (ih _ _ (ground (arith, length-drop mid items)) r' m (rw none_right at p')))

    from_reply :
        0 < length items
        → (y : Outcome Fault (List R)) → ask n items ≡ y
        → call_batched ask min_chunk (suc fuel) n items ≡ some (returns (rs, []), m)
        → run_chunked ask min_chunk (suc fuel) n items ≡ some (returns rs, m)
    unfolding run_chunked call_batched
    from_reply some_item (returns r) q = rw (q, run_chunked, call_batched) (λ e. cc)
    from_reply some_item (raises (other k)) q = rw (q, run_chunked, call_batched) (λ e. cc)
    from_reply some_item (raises capacity) q = elim (Bool-cases (leb (length items) min_chunk)) [
      | inl k ↦
          rw (q, run_chunked, call_batched)
            (rw k (λ e.
              absurd
                (ground (arith, ap (λ (l : List A). length l) (given_up (suc n) m items rs e)))))
      | inr k ↦
          rw (q, run_chunked, call_batched)
            (rw k (λ e. in_halves (ground arith) (both_returns _ _ _ _ m e)))
    ]

  of_batched :
      (fuel n : ℕ) (items : List A)
      → 0 < length items
      → (rs : List R) (m : ℕ) → call_batched ask min_chunk fuel n items ≡ some (returns (rs, []), m)
      → run_chunked ask min_chunk fuel n items ≡ some (returns rs, m)
  unfolding call_batched
  of_batched zero n items some_item rs m = λ e. absurd (cc)
  of_batched (suc fuel) n items some_item rs m =
      from_reply fuel n items (λ k l. of_batched fuel k l) rs m some_item (ask n items) refl

  -- With the same calls, the chunked run of some items returns a list of results exactly if the batch
  -- returns that list and gives no item up, after as many calls.
  pub run_chunked_iff :
      (n : ℕ) (items : List A) (rs : List R) (m : ℕ)
      → 0 < length items
      → (run_chunked ask min_chunk (suc (length items)) n items ≡ some (returns rs, m))
        ↔ (call_batched ask min_chunk (suc (length items)) n items ≡ some (returns (rs, []), m))
  run_chunked_iff n items rs m some_item = (
    to_batched (suc (length items)) n items rs m,
    of_batched (suc (length items)) n items some_item rs m,
  )
