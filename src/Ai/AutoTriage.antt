-- ===== src/Ai/AutoTriage.antt =====
-- `run_auto_triage` of app/ai.py: all unscored jobs, up to fifty, in batches of ten. The proofs stand in the module
-- below.
pub mod Scores
use job_squire.Base.{
  ℕ, zero, suc, ◌+◌, Option, none, some, List, [], ◌∷◌, Text, length, take, drop, strip,
  if◌then◌else◌, ltb, Bool, Outcome, returns, raises, ◌>>=◌,
}
use job_squire.Base.Int.{ℤ, pos, negsuc}
use job_squire.Ai.Chunks.{Fault, Run, Batch, call_batched}
use job_squire.Ai.Triage.{
  Job, not_a_number, infinite, integer, Item, entry, not_an_object, Scored, clamp_score, find_job,
  unscored, write,
}

-- `_TRIAGE_BATCH_SIZE`
abbrev pub triage_batch_size : ℕ
triage_batch_size = 10

-- The table, the counts, and the number of AI calls and of commits so far.
pub record Auto : Type 0 where
  pub rows : List Job
  pub scored : ℕ
  pub failed : ℕ
  pub calls : ℕ
  pub commits : ℕ

-- What ends the function: an `AttributeError` or an `OverflowError` on an element of a reply. The fuel of a batch is
-- enough, so that the other end is never met.
pub data Stop : Type 0 where
  attribute_error : Stop
  overflow_error : Stop
  out_of_fuel : Stop

-- Past 64 bits, the query of `db.session.get` raises an `OverflowError`.
abbrev pub sqlite_bound : ℕ
sqlite_bound = 9223372036854775808

unfoldable pub fail : ℕ → Auto → Auto
fail n s = record s { failed = s.failed + n }

-- `db.session.get(Job, jid)` and the two writes.
unfoldable pub store : Scored → Option Job → Auto → Auto
store p none s = fail 1 s
store p (some j) s = record s { rows = write p s.rows; scored = s.scored + 1 }

-- The body of the loop over the results.
unfoldable pub apply_result : Item → Auto → Outcome Stop Auto
apply_result not_an_object s = raises attribute_error
apply_result (entry not_a_number score reason) s = returns (fail 1 s)
apply_result (entry infinite score reason) s = raises overflow_error
apply_result (entry (integer i) not_a_number reason) s = returns (fail 1 s)
apply_result (entry (integer i) infinite reason) s = raises overflow_error
apply_result (entry (integer i) (integer score) none) s = raises attribute_error
apply_result (entry (integer (negsuc n)) (integer score) (some reason)) s =
    if ltb n sqlite_bound then returns (fail 1 s) else raises overflow_error
apply_result (entry (integer (pos jid)) (integer score) (some reason)) s =
    if ltb jid sqlite_bound
    then returns (
        store (record { id = jid; score = clamp_score score; reason = strip reason })
          (find_job jid s.rows) s)
    else raises overflow_error

unfoldable pub apply_results : List Item → Auto → Outcome Stop Auto
apply_results [] s = returns s
apply_results (item ∷ items) s = apply_result item s >>= apply_results items

-- `succeeds n` says whether the n-th commit succeeds, and `ask` gives the parsed replies.
module _ (succeeds : ℕ → Bool) (ask : ℕ → List Job → Outcome Fault (List Item)) where
  -- The end of a batch: a commit, or a rollback to the rows before the batch.
  unfoldable pub end_batch : List Job → Auto → Auto
  end_batch before s = record s {
    rows = if succeeds s.commits then s.rows else before;
    commits = suc s.commits;
  }

  unfoldable pub settle_batch : List Job → Run (Batch Job Item) → Auto → Outcome Stop Auto
  settle_batch batch none s = raises out_of_fuel
  settle_batch batch (some (raises e, n)) s =
      returns (record s { failed = s.failed + length batch; calls = n })
  settle_batch batch (some (returns (results, unresolved), n)) s =
      apply_results results (record s { failed = s.failed + length unresolved; calls = n }) >>= λ t.
      returns (end_batch s.rows t)

  unfoldable pub run_batch : List Job → Auto → Outcome Stop Auto
  run_batch batch s = settle_batch batch (call_batched ask 1 (suc (length batch)) s.calls batch) s

  -- `range(0, len(jobs), _TRIAGE_BATCH_SIZE)`. There are at most as many batches as jobs.
  unfoldable pub run_batches : ℕ → List Job → Auto → Outcome Stop Auto
  run_batches zero jobs s = returns s
  run_batches (suc n) [] s = returns s
  run_batches (suc n) (j ∷ jobs) s =
      run_batch (take triage_batch_size (j ∷ jobs)) s
      >>= run_batches n (drop triage_batch_size (j ∷ jobs))

  unfoldable pub run_auto_triage : List Job → Outcome Stop Auto
  run_auto_triage rows =
      let jobs = take 50 (unscored rows) in
      run_batches (length jobs) jobs
        (record { rows = rows; scored = 0; failed = 0; calls = 0; commits = 0 })
