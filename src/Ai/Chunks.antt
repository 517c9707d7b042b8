-- ===== src/Ai/Chunks.antt =====
-- `_call_batched_with_capacity_shrink` and `_run_chunked_or_single` of app/ai.py: a prompt that does not
-- fit is split in two. The proofs stand in the modules below.
pub mod Cover
pub mod Agree
use job_squire.Base.{
  ℕ, zero, suc, ◌/◌, Bool, true, false, Option, none, some, List, [], ◌∷◌, ◌++◌, length, take, drop,
  leb, Outcome, returns, raises, if◌then◌else◌,
}

-- `ContextCapacityError`, or any other exception, by number.
pub data Fault : Type 0 where
  capacity : Fault
  other : ℕ → Fault

-- A run with the number of calls made so far. `none` means that the fuel ran out.
abbrev pub Run : Type 0 → Type 0
Run X = Option (Outcome Fault X × ℕ)

-- Two halves in order: an exception of the first ends the run, one of the second too.
unfoldable pub both : {X : Type 0} → (X → X → X) → Run X → (ℕ → Run X) → Run X
both join none right = none
both join (some (raises e, n)) right = some (raises e, n)
both join (some (returns x, n)) right = elim (right n) [
  | none ↦ none
  | some (raises e, m) ↦ some (raises e, m)
  | some (returns y, m) ↦ some (returns (join x y), m)
]

-- The results, and the items that were given up.
abbrev pub Batch : Type 0 → Type 0 → Type 0
Batch A R = List R × List A

unfoldable pub join : {A R : Type 0} → Batch A R → Batch A R → Batch A R
join (r, f) (r', f') = (r ++ r', f ++ f')

-- `ask n items` is the n-th call, on the prompt for `items`, with its reply parsed.
module _ {A R : Type 0} (ask : ℕ → List A → Outcome Fault (List R)) (min_chunk : ℕ) where
  unfoldable pub call_batched : ℕ → ℕ → List A → Run (Batch A R)
  call_batched zero n items = none
  call_batched (suc fuel) n items = elim (ask n items) [
    | returns rs ↦ some (returns (rs, []), suc n)
    | raises (other e) ↦ some (raises (other e), suc n)
    | raises capacity ↦
        let mid = length items / 2 in
        let halves =
          both join (call_batched fuel (suc n) (take mid items))
            (λ m. call_batched fuel m (drop mid items)) in
        if leb (length items) min_chunk then some (returns ([], items), suc n) else halves
  ]

  unfoldable pub run_chunked : ℕ → ℕ → List A → Run (List R)
  run_chunked zero n items = none
  run_chunked (suc fuel) n items = elim (ask n items) [
    | returns rs ↦ some (returns rs, suc n)
    | raises (other e) ↦ some (raises (other e), suc n)
    | raises capacity ↦
        let mid = length items / 2 in
        let halves =
          both ◌++◌ (run_chunked fuel (suc n) (take mid items))
            (λ m. run_chunked fuel m (drop mid items)) in
        if leb (length items) min_chunk then some (raises capacity, suc n) else halves
  ]
