-- ===== src/Ai/AutoTriage/Scores.antt =====
-- What an automatic triage writes to the table.
use mathlib.Core.Path.{subst}
use job_squire.Base.{
  ℕ, zero, suc, ◌+◌, ◌≤◌, Bool, true, ◌≡◌, refl, ◌⊎◌, inl, inr, Option, none, some, List, [], ◌∷◌,
  length, take, drop, strip, contains, Outcome, returns, raises, ◌>>=◌, Option-cases, Bool-cases,
  nat_eq, arith, keeps_if, ltb,
}
use job_squire.Base.Int.{pos, negsuc}
use job_squire.Ai.Chunks.{Fault, Run, Batch, call_batched}
use job_squire.Ai.Chunks.Cover.{Finished, finished, call_batched-Finished}
use job_squire.Ai.Triage.{
  Job, not_a_number, infinite, integer, Item, entry, not_an_object, Scored, clamp_score, find_job,
  unscored, write, write_all,
}
use job_squire.Ai.Triage.Sound.{clamp_score_bounds}
use job_squire.Ai.Triage.Missing.{ids, contains-find_job}
use job_squire.Ai.Triage.Writes.{Keeps, Keeps-same, Keeps-write_all}
use job_squire.Ai.AutoTriage.{
  Auto, Stop, attribute_error, overflow_error, sqlite_bound, out_of_fuel, fail, store, apply_result,
  apply_results, end_batch, settle_batch, run_batch, run_batches, run_auto_triage,
  triage_batch_size,
}

write_one : (p : Scored) (rows : List Job) → write_all (p ∷ []) rows ≡ write p rows
unfolding write_all
write_one p rows = refl

module _ (start : List Job) where
  -- Every id is kept since the start.
  abbrev KeepsAll : List Job → Type 0
  KeepsAll rows = (i : ℕ) → Keeps start i start rows

  -- The function has not run out of fuel, and the table that it leaves is kept.
  abbrev pub Ends : Outcome Stop Auto → Type 0
  Ends (returns s) = KeepsAll s.rows
  Ends (raises attribute_error) = Unit
  Ends (raises overflow_error) = Unit
  Ends (raises out_of_fuel) = ⊥

  Ends-bind :
      (o : Outcome Stop Auto) (next : Auto → Outcome Stop Auto)
      → Ends o
      → ((s : Auto) → KeepsAll s.rows → Ends (next s))
      → Ends (o >>= next)
  Ends-bind (returns s) next h k = k s h
  Ends-bind (raises attribute_error) next h k = tt
  Ends-bind (raises overflow_error) next h k = tt
  Ends-bind (raises out_of_fuel) next h k = h

  store-KeepsAll :
      (p : Scored) (o : Option Job) (s : Auto)
      → (1 ≤ p.score) × (p.score ≤ 10)
      → find_job p.id s.rows ≡ o
      → KeepsAll s.rows
      → KeepsAll (store p o s).rows
  unfolding store fail
  store-KeepsAll p none s b e k = k
  store-KeepsAll p (some j) s b e k = λ i. subst (Keeps start i start) (write_one p s.rows) (
      Keeps-write_all start (p ∷ []) i start s.rows (b, tt)
        (member (Option-cases (find_job p.id start)), tt) (k i))
    where
      member :
          (find_job p.id start ≡ none) ⊎ ((x : Job) × (find_job p.id start ≡ some x))
          → contains (ids start) p.id ≡ true
      member (inl n) = absurd (cc ((k p.id).absent n, e))
      member (inr (x, h)) = (contains-find_job p.id x start h).1

  apply_result-Ends : (item : Item) (s : Auto) → KeepsAll s.rows → Ends (apply_result item s)
  unfolding apply_result fail
  apply_result-Ends not_an_object s k = tt
  apply_result-Ends (entry not_a_number score reason) s k = k
  apply_result-Ends (entry infinite score reason) s k = tt
  apply_result-Ends (entry (integer i) not_a_number reason) s k = k
  apply_result-Ends (entry (integer i) infinite reason) s k = tt
  apply_result-Ends (entry (integer i) (integer score) none) s k = tt
  apply_result-Ends (entry (integer (negsuc n)) (integer score) (some reason)) s k =
      keeps_if Ends (ltb n sqlite_bound) _ _ k tt
  apply_result-Ends (entry (integer (pos jid)) (integer score) (some reason)) s k =
      keeps_if Ends (ltb jid sqlite_bound) _ _
        (store-KeepsAll (record { id = jid; score = clamp_score score; reason = strip reason })
          (find_job jid s.rows) s (clamp_score_bounds score) refl k)
        tt

  apply_results-Ends :
      (items : List Item) (s : Auto) → KeepsAll s.rows → Ends (apply_results items s)
  unfolding apply_results
  apply_results-Ends [] s k = k
  apply_results-Ends (item ∷ items) s k =
      Ends-bind (apply_result item s) (apply_results items) (apply_result-Ends item s k)
        (λ t h. apply_results-Ends items t h)

  module _ (succeeds : ℕ → Bool) (ask : ℕ → List Job → Outcome Fault (List Item)) where
    end_batch-KeepsAll :
        (before : List Job) (s : Auto)
        → KeepsAll before
        → KeepsAll s.rows
        → KeepsAll (end_batch succeeds ask before s).rows
    unfolding end_batch
    end_batch-KeepsAll before s b k = elim (Bool-cases (succeeds s.commits)) [
      | inl h ↦ simp h k
      | inr h ↦ simp h b
    ]

    settle_batch-Ends :
        (batch : List Job) (r : Run (Batch Job Item)) (s : Auto)
        → Finished ask 1 batch r
        → KeepsAll s.rows
        → Ends (settle_batch succeeds ask batch r s)
    unfolding settle_batch
    settle_batch-Ends batch _ s (finished (raises e) n f) k = k
    settle_batch-Ends batch _ s (finished (returns (results, unresolved)) n f) k =
        let t = record s { failed = s.failed + length unresolved; calls = n } in
        Ends-bind (apply_results results t) (λ u. returns (end_batch succeeds ask s.rows u))
          (apply_results-Ends results t k) (λ u h. end_batch-KeepsAll s.rows u k h)

    run_batches-Ends :
        (n : ℕ) (jobs : List Job) (s : Auto)
        → KeepsAll s.rows
        → Ends (run_batches succeeds ask n jobs s)
    unfolding run_batches run_batch
    run_batches-Ends zero jobs s k = k
    run_batches-Ends (suc n) [] s k = k
    run_batches-Ends (suc n) (j ∷ jobs) s k =
        let batch = take triage_batch_size (j ∷ jobs) in
        Ends-bind (run_batch succeeds ask batch s)
          (run_batches succeeds ask n (drop triage_batch_size (j ∷ jobs)))
          (settle_batch-Ends batch (call_batched ask 1 (suc (length batch)) s.calls batch) s
            (call_batched-Finished ask 1 (omega arith) (suc (length batch)) s.calls batch
              (omega arith))
            k)
          (λ t h. run_batches-Ends n (drop triage_batch_size (j ∷ jobs)) t h)

-- Whatever the replies and the commits, an automatic triage does not run out of fuel. Where it returns, it has
-- added and removed no id of the table and changed a row only in its score and reason, to a score between 1 and 10.
pub run_auto_triage-Ends :
    (succeeds : ℕ → Bool) (ask : ℕ → List Job → Outcome Fault (List Item)) (rows : List Job)
    → Ends rows (run_auto_triage succeeds ask rows)
unfolding run_auto_triage
run_auto_triage-Ends succeeds ask rows =
    let jobs = take 50 (unscored rows) in
    run_batches-Ends rows succeeds ask (length jobs) jobs
      (record { rows = rows; scored = 0; failed = 0; calls = 0; commits = 0 })
      (λ i. Keeps-same rows i rows)
