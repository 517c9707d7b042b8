-- ===== src/Tests/Chunks.antt =====
-- Batches of numbers: a call fits up to two of them, and never with the number 7.
use job_squire.Base.{
  ℕ, ◌+◌, ◌≤◌, ◌||◌, ◌≡◌, ◌↔◌, refl, inl, inr, some, List, [], ◌∷◌, length, ltb, contains, nat_eq,
  Occurs, Outcome, returns, raises, arith, if◌then◌else◌, Bool-cases,
}
use mathlib.Core.List.{map}
use job_squire.Ai.Chunks.{Fault, capacity, Run, both, join, call_batched, run_chunked}
use job_squire.Ai.Chunks.Cover.{
  Finished, total, call_batched-Finished, call_batched_conserves, call_batched_gives_up,
}
use job_squire.Ai.Chunks.Agree.{run_chunked_iff}

-- A call gives its items back.
ask : ℕ → List ℕ → Outcome Fault (List ℕ)
unfolding nat_eq
ask n items = if ltb 2 (length items) || contains items 7 then raises capacity else returns items

batch : ℕ → List ℕ → Run (List ℕ × List ℕ)
unfolding call_batched both join ask
batch fuel = call_batched ask 1 fuel 0

batch_gives_up_seven :
    batch 6 (1 ∷ 2 ∷ 3 ∷ 7 ∷ 5 ∷ []) ≡ some (returns (1 ∷ 2 ∷ 3 ∷ 5 ∷ [], 7 ∷ []), 7)
unfolding batch
batch_gives_up_seven = refl

call_batched-Finished_example :
    Finished ask 1 (1 ∷ 2 ∷ 7 ∷ []) (call_batched ask 1 4 0 (1 ∷ 2 ∷ 7 ∷ []))
call_batched-Finished_example =
    call_batched-Finished ask 1 (omega arith) 4 0 (1 ∷ 2 ∷ 7 ∷ []) (omega arith)

total_id : (l : List ℕ) → total (λ x. x) (map (λ x. x) l) ≡ total (λ x. x) l
total_id [] = refl
total_id (x ∷ l) = omega (arith, total_id l)

ask_exact :
    (k : ℕ) (l r : List ℕ)
    → ask k l ≡ returns r
    → total (λ x. x) (map (λ x. x) r) ≡ total (λ x. x) l
unfolding ask
ask_exact k l r e = elim (Bool-cases (ltb 2 (length l) || contains l 7)) [
  | inl h ↦ absurd (cc (rw h at e))
  | inr h ↦ let same : l ≡ r = cc (rw h at e) in rw same (total_id r)
]

call_batched_conserves_example :
    total (λ x. x) (map (λ x. x) (1 ∷ 2 ∷ [])) + total (λ x. x) (7 ∷ [])
    ≡ total (λ x. x) (1 ∷ 2 ∷ 7 ∷ [])
unfolding batch
call_batched_conserves_example =
    call_batched_conserves ask 1 (omega arith) 0 5 (1 ∷ 2 ∷ 7 ∷ []) (1 ∷ 2 ∷ []) (7 ∷ []) refl
      (λ x. x) (λ x. x) ask_exact

call_batched_gives_up_example :
    (chunk : List ℕ) × (k : ℕ) × Occurs 7 chunk
    × (length chunk ≤ 1)
    × (ask k chunk ≡ raises capacity)
unfolding batch
call_batched_gives_up_example =
    call_batched_gives_up ask 1 (omega arith) 0 5 (1 ∷ 2 ∷ 7 ∷ []) (1 ∷ 2 ∷ []) (7 ∷ []) refl 7
      (inl refl)

run_chunked_iff_example :
    (run_chunked ask 1 4 0 (1 ∷ 2 ∷ 3 ∷ []) ≡ some (returns (1 ∷ 2 ∷ 3 ∷ []), 3))
    ↔ (call_batched ask 1 4 0 (1 ∷ 2 ∷ 3 ∷ []) ≡ some (returns (1 ∷ 2 ∷ 3 ∷ [], []), 3))
run_chunked_iff_example =
    run_chunked_iff ask 1 (omega arith) 0 (1 ∷ 2 ∷ 3 ∷ []) (1 ∷ 2 ∷ 3 ∷ []) 3 (omega arith)
