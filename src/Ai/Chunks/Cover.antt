-- ===== src/Ai/Chunks/Cover.antt =====
-- A batch loses no item, gives up only what does not fit, and hides no other error.
use mathlib.Core.Path.{subst, subst₂}
use mathlib.Core.List.{map, map-append}
use job_squire.Base.{
  leb→le, Occurs, Occurs-append, ℕ, zero, suc, ◌+◌, ◌/◌, ◌≤◌, ◌<◌, ◌≡◌, refl, inl, inr, some, List,
  [], ◌∷◌, ◌++◌, length, take, drop, leb, take-append-drop, length-take, length-drop, Bool-cases,
  Outcome, returns, raises, arith,
}
use job_squire.Ai.Chunks.{Fault, capacity, other, Run, both, Batch, join, call_batched}

module _ {A : Type 0} (weight : A → ℕ) where
  -- The sum of the weights.
  abbrev pub total : List A → ℕ
  total [] = 0
  total (x ∷ xs) = weight x + total xs

  pub total-append : (xs ys : List A) → total (xs ++ ys) ≡ total xs + total ys
  total-append [] ys = omega arith
  total-append (x ∷ xs) ys = omega (arith, total-append xs ys)

module _ {A R : Type 0} (ask : ℕ → List A → Outcome Fault (List R)) (min_chunk : ℕ) where
  -- How a batch came about: a call that returned, a smallest chunk that did not fit, or two halves.
  pub data Covers : List A → List R → List A → Type 0 where
    scored : {items : List A} {rs : List R} (n : ℕ) → ask n items ≡ returns rs → Covers items rs []
    gave_up :
        {items : List A} (n : ℕ)
        → ask n items ≡ raises capacity
        → length items ≤ min_chunk
        → Covers items [] items
    halves :
        {xs ys : List A} {r r' : List R} {f f' : List A}
        → Covers xs r f
        → Covers ys r' f'
        → Covers (xs ++ ys) (r ++ r') (f ++ f')

  -- The ends that a run of a batch can come to.
  pub data Ended : List A → Outcome Fault (Batch A R) → Type 0 where
    returned :
        {items : List A} {r : List R} {f : List A} → Covers items r f → Ended items (returns (r, f))
    failed : {items : List A} (e : ℕ) → Ended items (raises (other e))

  pub data Finished (items : List A) : Run (Batch A R) → Type 0 where
    finished :
        (o : Outcome Fault (Batch A R)) (n : ℕ) → Ended items o → Finished items (some (o, n))

  Finished-both :
      (xs ys : List A) {left : Run (Batch A R)} (right : ℕ → Run (Batch A R))
      → Finished xs left
      → ((k : ℕ) → Finished ys (right k))
      → Finished (xs ++ ys) (both join left right)
  unfolding both join
  Finished-both xs ys right (finished _ n (failed e)) h = finished (raises (other e)) n (failed e)
  Finished-both xs ys right (finished _ n (returned {r = r} {f = f} c)) h = second (right n) (h n)
    where
      second :
          (y : Run (Batch A R))
          → Finished ys y
          → Finished (xs ++ ys) (both join (some (returns (r, f), n)) (λ _. y))
      second _ (finished _ m (failed e)) = finished (raises (other e)) m (failed e)
      second _ (finished _ m (returned d)) = finished _ m (returned (halves c d))

  -- With chunks of at least one item and more fuel than items, a batch finishes, and it ends with
  -- results and unfit items that cover it, or with an error that is no lack of capacity.
  pub call_batched-Finished :
      0 < min_chunk
      → (fuel n : ℕ) (items : List A) → length items < fuel
      → Finished items (call_batched ask min_chunk fuel n items)
  unfolding call_batched
  call_batched-Finished pos zero n items h = absurd (omega arith)
  call_batched-Finished pos (suc fuel) n items h =
      on_reply (λ m l q. call_batched-Finished pos fuel m l q) (ask n items) refl
    where
      mid : ℕ
      mid = length items / 2

      on_reply :
          ((m : ℕ) (l : List A)
            → length l < fuel
            → Finished l (call_batched ask min_chunk fuel m l))
          → (y : Outcome Fault (List R)) → ask n items ≡ y
          → Finished items (call_batched ask min_chunk (suc fuel) n items)
      on_reply ih (returns rs) e = rw (e, call_batched) (finished _ _ (returned (scored n e)))
      on_reply ih (raises (other k)) e = rw (e, call_batched) (finished _ _ (failed k))
      on_reply ih (raises capacity) e = elim (Bool-cases (leb (length items) min_chunk)) [
        | inl k ↦
            rw (e, call_batched)
              (rw k (finished _ _ (returned (gave_up n e (leb→le (length items) min_chunk k)))))
        | inr k ↦
            rw (e, call_batched)
              (rw k (
                subst
                  (λ l. Finished l (
                    both join (call_batched ask min_chunk fuel (suc n) (take mid items))
                      (λ m. call_batched ask min_chunk fuel m (drop mid items))))
                  (take-append-drop mid items)
                  (Finished-both (take mid items) (drop mid items) _
                    (ih (suc n) (take mid items) (ground (arith, length-take mid items)))
                    (λ m. ih m (drop mid items) (ground (arith, length-drop mid items))))))
      ]

  module _ (weight : A → ℕ) (key : R → A) where
    -- If every call that returns gives results for its items, each as often as it was sent, then the
    -- results and the given up items of a batch are its items, each as often as in the batch.
    pub total-Covers :
        ((n : ℕ) (items : List A) (rs : List R)
          → ask n items ≡ returns rs
          → total weight (map key rs) ≡ total weight items)
        → {items : List A} {rs : List R} {f : List A} → Covers items rs f
        → total weight (map key rs) + total weight f ≡ total weight items
    total-Covers exact (scored {items} {rs} n e) = omega (arith, exact n items rs e)
    total-Covers exact (gave_up n e small) = omega arith
    total-Covers exact (halves {xs} {ys} {r} {r'} {f} {f'} c d) = rw map-append (
        omega (
          arith,
          total-append weight (map key r) (map key r'),
          total-append weight f f',
          total-append weight xs ys,
          total-Covers exact c,
          total-Covers exact d,
        ))

  -- An item that is given up stood in a chunk of at most `min_chunk` items whose own call did not fit.
  abbrev pub Unfit : A → Type 0
  Unfit x =
      (chunk : List A) × (n : ℕ) × Occurs x chunk
      × (length chunk ≤ min_chunk)
      × (ask n chunk ≡ raises capacity)

  pub Covers-Unfit :
      {items : List A} {rs : List R} {f : List A}
      → Covers items rs f
      → (x : A) → Occurs x f
      → Unfit x
  Covers-Unfit (scored n e) x o = elim o [ ]
  Covers-Unfit (gave_up {items} n e small) x o = (items, n, o, small, e)
  Covers-Unfit (halves {f} {f'} c d) x o = elim (Occurs-append f f' x o) [
    | inl l ↦ Covers-Unfit c x l
    | inr r ↦ Covers-Unfit d x r
  ]

  Finished-Covers :
      {items : List A} {x : Run (Batch A R)}
      → Finished items x
      → (rs : List R) (f : List A) (m : ℕ) → x ≡ some (returns (rs, f), m)
      → Covers items rs f
  Finished-Covers (finished _ n (returned {items} {r} {f = g} c)) rs f m e =
      subst₂ (λ a b. Covers items a b) (cc) (cc) c
  Finished-Covers (finished _ n (failed k)) rs f m e = absurd (cc)

  module _ (pos : 0 < min_chunk) (n m : ℕ) (items : List A) (rs : List R) (f : List A)
      (run : call_batched ask min_chunk (suc (length items)) n items
        ≡ some (returns (rs, f), m)) where
    covers : Covers items rs f
    covers =
        Finished-Covers (call_batched-Finished pos (suc (length items)) n items (omega arith)) rs f
          m run

    -- A batch that returns loses no item and scores none twice: if the results of every single call
    -- are for the items of that call, then for every weight of items the results and the given up
    -- items weigh together what the items of the batch do.
    pub call_batched_conserves :
        (weight : A → ℕ) (key : R → A)
        → ((k : ℕ) (l : List A) (r : List R)
            → ask k l ≡ returns r
            → total weight (map key r) ≡ total weight l)
        → total weight (map key rs) + total weight f ≡ total weight items
    call_batched_conserves weight key exact = total-Covers weight key exact covers

    -- A batch that returns gives up an item only if some call on a chunk that holds it, of at most
    -- `min_chunk` items, failed for lack of capacity.
    pub call_batched_gives_up :
        (x : A)
        → Occurs x f
        → (chunk : List A) × (k : ℕ) × Occurs x chunk
          × (length chunk ≤ min_chunk)
          × (ask k chunk ≡ raises capacity)
    call_batched_gives_up x o = Covers-Unfit covers x o
